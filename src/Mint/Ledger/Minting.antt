-- ===== src/Mint/Ledger/Minting.antt =====
-- `get_mint_quote` and `mint` of cashu/mint/ledger.py.
use nutshell.Base.{Bool, ◌/◌, String, true, false, Option, none, some, List, [], ◌∷◌, ◌==◌, eqb_ℤ}
use nutshell.Core.Currency.{CurrencyUnit, unit_name}
use nutshell.Core.Errors.{
  transaction_error, cashu_error, exception, index_error, quote_already_issued, quote_not_paid,
  quote_signature_invalid,
}
use nutshell.Core.Proofs.{BlindedMessage, BlindedSignature, sum_outputs}
use nutshell.Core.Quotes.{MintQuote, MintQuoteState, mint_state_eq, set_mint_state}
use nutshell.Core.Result.{Result, ok, err, require, raise_if, or_raise}
use nutshell.Mint.State.{
  mint_quote_event, Action, lift, pure, raise, check, submit, transaction, ◌>>=◌, ◌>>◌,
}
use nutshell.Mint.Quotes.{get_mint_quote, update_mint_quote}
use nutshell.Mint.Verification.{Env, verify_outputs, unit_of}
use nutshell.Mint.Verification.Quotes.{
  Backends, is_expired, verify_and_get_unit_method, verify_mint_quote_witness,
}
use nutshell.Mint.Write.Quotes.{set_mint_quote_pending, unset_mint_quote_pending}
use nutshell.Mint.Ledger.Issue.{store_blinded_messages, sign_blinded_messages}

abbrev pub caught : {A : Type 0} → Action (Unit {0}) → Result A → Action A
caught handler (ok a) t = (ok a, t)
caught handler (err e) t = (handler >> raise e) t

-- `try: m except Exception as e: handler; raise e`
abbrev pub except_do : {A : Type 0} → Action A → Action (Unit {0}) → Action A
except_do m handler s = let (r, t) = m s in caught handler r t

-- `_unset_mint_quote_pending`, without the quote that it returns.
abbrev pub release : String → MintQuoteState → Action (Unit {0})
release quote_id state = unset_mint_quote_pending quote_id state >>= λ _. pure tt

module _ (env : Env) (backends : Backends) where
  open env use {keysets, script}

  -- The row of an invoice that is settled, read again under the lock: it becomes paid unless somebody
  -- was faster.
  unfoldable pub mark_paid : Option MintQuote → Action MintQuote
  mark_paid found = do
    quote ← lift (or_raise found (exception "quote not found"))
    elim (mint_state_eq quote.state MintQuoteState.unpaid) [
      | false ↦ pure quote
      | true ↦ do
        paid ← lift (set_mint_state quote MintQuoteState.paid)
        let stamped : MintQuote = record paid { paid_time = some (script.now / 1000000) }
        update_mint_quote stamped
        submit (mint_quote_event stamped)
        pure stamped
    ]

  -- The answer of the backend.
  abbrev pub when_settled : String → MintQuote → Bool → Action MintQuote
  when_settled quote_id quote false = pure quote
  when_settled quote_id quote true = transaction (get_mint_quote quote_id "" "" >>= mark_paid)

  -- An unpaid quote is checked with the backend.
  unfoldable pub check_invoice : String → MintQuote → Action MintQuote
  check_invoice quote_id quote = do
    lift (raise_if (quote.checking_id == "") (cashu_error "quote has no checking id"))
    settled ← lift (or_raise (backends.settled quote.checking_id) (exception "backend"))
    when_settled quote_id quote settled

  -- `if quote.unpaid:`
  abbrev pub when_unpaid : String → MintQuote → Bool → Action MintQuote
  when_unpaid quote_id quote false = pure quote
  when_unpaid quote_id quote true = check_invoice quote_id quote

  unfoldable pub check_mint_quote : String → Option MintQuote → Action MintQuote
  check_mint_quote quote_id found = do
    quote ← lift (or_raise found (exception "quote not found"))
    _ ← lift (verify_and_get_unit_method env backends quote.unit quote.method)
    when_unpaid quote_id quote (mint_state_eq quote.state MintQuoteState.unpaid)

  -- `Ledger.get_mint_quote`
  unfoldable pub refresh_mint_quote : String → Action MintQuote
  refresh_mint_quote quote_id = get_mint_quote quote_id "" "" >>= check_mint_quote quote_id

  -- What `mint` does while the quote is locked.
  unfoldable pub mint_body :
      String
      → CurrencyUnit
      → MintQuote
      → List BlindedMessage
      → Option String
      → Action (List BlindedSignature)
  mint_body quote_id output_unit quote outputs signature = do
    lift (
        require (quote.unit == unit_name output_unit)
          (transaction_error "quote unit does not match output unit"))
    lift (
        require (eqb_ℤ quote.amount (sum_outputs outputs))
          (transaction_error "amount to mint does not match quote amount"))
    lift (raise_if (is_expired quote.expiry script.now) (transaction_error "quote expired"))
    signed ← lift (verify_mint_quote_witness env backends quote outputs signature)
    lift (require signed quote_signature_invalid)
    store_blinded_messages env outputs none (some quote_id) none
    sign_blinded_messages env outputs

  -- `self.keysets[outputs[0].id].unit`
  abbrev pub output_unit : List BlindedMessage → Result CurrencyUnit
  output_unit [] = err index_error
  output_unit (o ∷ outputs) = unit_of env o.id

  -- From the lock on.
  unfoldable pub mint_locked :
      List BlindedMessage
      → String
      → Option String
      → CurrencyUnit
      → MintQuote
      → Action (List BlindedSignature)
  mint_locked outputs quote_id signature unit quote = do
    _ ← set_mint_quote_pending quote_id
    promises ←
        except_do (mint_body quote_id unit quote outputs signature) (release quote_id quote.state)
    release quote_id MintQuoteState.issued
    pure promises

  unfoldable pub mint_refreshed :
      List BlindedMessage
      → String
      → Option String
      → CurrencyUnit
      → MintQuote
      → Action (List BlindedSignature)
  mint_refreshed outputs quote_id signature unit quote = do
    lift (
        raise_if (mint_state_eq quote.state MintQuoteState.pending)
          (transaction_error "Mint quote already pending."))
    lift (raise_if (mint_state_eq quote.state MintQuoteState.issued) quote_already_issued)
    lift (require (mint_state_eq quote.state MintQuoteState.paid) quote_not_paid)
    mint_locked outputs quote_id signature unit quote

  unfoldable pub mint :
      List BlindedMessage → String → Option String → Action (List BlindedSignature)
  mint outputs quote_id signature = do
    check (verify_outputs env outputs false)
    unit ← lift (output_unit outputs)
    quote ← refresh_mint_quote quote_id
    mint_refreshed outputs quote_id signature unit quote
