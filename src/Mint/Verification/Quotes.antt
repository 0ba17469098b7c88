-- ===== src/Mint/Verification/Quotes.antt =====
-- The checks of quotes: `_verify_and_get_unit_method` and `_verify_mint_quote_witness` of
-- cashu/mint/verification.py, with the signed message of cashu/core/nuts/nut20.py.
use Prim.Native.String.{◌++◌ as ◌+++◌}
use nutshell.Base.{
  ℕ, ℤ, ◌/◌, String, Bool, true, false, ◌&&◌, Option, none, some, List, [], ◌∷◌, map, ◌==◌, ltb,
  if◌then◌else◌,
}
use nutshell.Core.Currency.{CurrencyUnit, unit_eq, unit_of_name}
use nutshell.Core.Errors.{key_error, not_allowed, value_error}
use nutshell.Core.Proofs.{BlindedMessage}
use nutshell.Core.Quotes.{MintQuote}
use nutshell.Core.Result.{Result, ok, err, require, or_raise, ◌>>=◌, ◌>>◌}
use nutshell.Mint.State.{Keysets}
use nutshell.Mint.Conditions.{join}
use nutshell.Mint.Verification.{Env}

-- The Lightning backends and the signature library; `none` is an exception.
pub record Backends : Type 0 where
  -- is there a backend for the method and the unit?
  pub supports : String → CurrencyUnit → Bool
  -- `get_invoice_status(checking_id).settled`
  pub settled : String → Option Bool
  -- `bolt11.decode(request).amount_msat`
  pub amount_msat : String → Option (Option ℤ)
  -- `PublicKeyXOnly(pubkey[1:]).verify(signature, sha256(message))`
  pub verify_x_only : String → String → String → Option Bool

-- `Method[method_str]`
abbrev method_of : String → Result String
method_of m = if m == "bolt11" then ok m else err key_error

abbrev has_unit : CurrencyUnit → Keysets → Bool
has_unit u [] = false
has_unit u ((k, m) ∷ keysets) = if unit_eq u m.unit then true else has_unit u keysets

-- `expiry and expiry < int(time.time())`, with the clock in microseconds.
abbrev pub is_expired : Option ℕ → ℕ → Bool
is_expired none now = false
is_expired (some t) now = ltb 0 t && ltb t (now / 1000000)

-- `construct_message`, before it is hashed.
unfoldable pub construct_message : String → List BlindedMessage → String
construct_message quote_id outputs =
    ◌+++◌ quote_id (join (map (λ (o : BlindedMessage). o.B_) outputs))

module _ (env : Env) (backends : Backends) where
  open env use {keysets}

  unfoldable pub verify_and_get_unit_method : String → String → Result (CurrencyUnit × String)
  verify_and_get_unit_method unit_str method_str = do
    method ← method_of method_str
    unit ← unit_of_name unit_str
    require (has_unit unit keysets) (not_allowed "unit not supported in any keyset.")
    require (backends.supports method unit) (not_allowed "no support for method with unit.")
    ok (unit, method)

  unfoldable pub verify_mint_quote : String → List BlindedMessage → String → String → Result Bool
  verify_mint_quote quote_id outputs public_key signature =
      or_raise (backends.verify_x_only public_key (construct_message quote_id outputs) signature)
        value_error

  abbrev with_signature : MintQuote → List BlindedMessage → String → Option String → Result Bool
  with_signature quote outputs pubkey none = ok false
  with_signature quote outputs pubkey (some signature) =
      if signature == "" then ok false else verify_mint_quote quote.quote outputs pubkey signature

  abbrev with_pubkey : MintQuote → List BlindedMessage → Option String → Option String → Result Bool
  with_pubkey quote outputs none signature = ok true
  with_pubkey quote outputs (some pubkey) signature =
      if pubkey == "" then ok true else with_signature quote outputs pubkey signature

  unfoldable pub verify_mint_quote_witness :
      MintQuote → List BlindedMessage → Option String → Result Bool
  verify_mint_quote_witness quote outputs signature =
      with_pubkey quote outputs quote.pubkey signature
