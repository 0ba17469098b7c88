-- ===== src/Tests/World.antt =====
-- A small mint: one keyset with a fee, and a curve and scripts that are texts.
use Prim.Native.String.{◌++◌ as ◌+++◌}
use nutshell.Base.{
  ℕ, ℤ, pos, String, true, false, Option, none, some, List, [], ◌∷◌, ◌==◌, if◌then◌else◌,
}
use nutshell.Core.Currency.{CurrencyUnit}
use nutshell.Core.Proofs.{Proof, BlindedMessage}
use nutshell.Core.Quotes.{MintQuote, MeltQuote, MintQuoteState, MeltQuoteState}
use nutshell.Core.Secret.{Secret}
use nutshell.Mint.State.{Mint, MintKeyset}
use nutshell.Mint.Conditions.{Script}
use nutshell.Mint.Verification.{Curve, Env}

-- Two pubkeys of three must sign what stands under the first lock, and all inputs and outputs under
-- the second.
abbrev lock_secret : String → Option Secret
lock_secret s =
    if s == "two of three"
    then some (record {
      kind = "P2PK";
      data_ = "alice";
      tags =
          ("n_sigs" ∷ "2" ∷ [])
          ∷ ("pubkeys" ∷ "bob" ∷ "carol" ∷ [])
          ∷ ("sigflag" ∷ "SIG_INPUTS" ∷ [])
          ∷ [];
    })
    else if s == "all"
    then some (record { kind = "P2PK"; data_ = "alice"; tags = ("sigflag" ∷ "SIG_ALL" ∷ []) ∷ [] })
    else none

abbrev digit : String → Option ℤ
digit s = if s == "1" then some (pos 1) else if s == "2" then some (pos 2) else none

abbrev witness_signatures : String → Option (List String)
witness_signatures w =
    if w == "w"
    then some ("bob:two of three" ∷ "alice:two of three" ∷ [])
    else if w == "v"
    then some ("alice:allb" ∷ [])
    else none

-- A signature is the pubkey and the message.
abbrev pub script : Script
script = record {
  deserialize = lock_secret;
  p2pk_signatures = witness_signatures;
  htlc_preimage = λ w. none;
  verify_schnorr = λ m p s. some (s == ◌+++◌ p (◌+++◌ ":" m));
  preimage_matches = λ p d. some (p == d);
  parse_int = digit;
  lower = λ s. s;
  set_order = λ xs. xs;
  now = 1000000;
}

-- A signature of the mint is its key and the text signed.
abbrev curve : Curve
curve = record {
  parse_point = λ p. some p;
  verify = λ key C secret. C == ◌+++◌ key secret;
  step2_bob = λ B_ key. (◌+++◌ key B_, ("e", "s"));
}

abbrev pub keyset : MintKeyset
keyset = record {
  id = "k";
  unit = CurrencyUnit.sat;
  active = true;
  input_fee_ppk = 100;
  private_keys = (pos 1, "one") ∷ (pos 2, "two") ∷ (pos 4, "four") ∷ (pos 8, "eight") ∷ [];
}

abbrev pub env : Env
env = record {
  settings = record {
    max_order = 10;
    mint_max_secret_length = 512;
    mint_max_witness_length = 1024;
    mint_disable_melt_on_error = true;
  };
  keysets = ("k", keyset) ∷ [];
  curve = curve;
  script = script;
}

abbrev pub hash : String → String
hash s = ◌+++◌ "Y:" s

abbrev pub proof_of : ℕ → String → String → Option String → Proof
proof_of n secret C witness = record {
  id = "k";
  amount = pos n;
  secret = secret;
  Y = hash secret;
  C = C;
  witness = witness;
}

abbrev pub four : Proof
four = proof_of 4 "a" "foura" none

abbrev pub two : Proof
two = proof_of 2 "c" "twoc" none

abbrev pub output : ℕ → String → BlindedMessage
output n B_ = record { id = "k"; amount = pos n; B_ = B_ }

abbrev pub mint_quote : MintQuoteState → MintQuote
mint_quote state = record {
  quote = "q";
  method = "bolt11";
  request = "ln";
  checking_id = "c";
  unit = "sat";
  amount = pos 4;
  state = state;
  paid_time = none;
  expiry = none;
  pubkey = none;
}

abbrev pub melt_quote : MeltQuoteState → MeltQuote
melt_quote state = record {
  quote = "m";
  method = "bolt11";
  request = "ln";
  checking_id = "d";
  unit = "sat";
  amount = pos 4;
  fee_reserve = pos 2;
  state = state;
  paid_time = none;
  fee_paid = pos 0;
  payment_preimage = none;
  expiry = none;
  change = [];
}

-- The mint has issued a hundred; it holds a paid mint quote and an unpaid melt quote.
abbrev pub start : Mint
start = record {
  db = record {
    proofs_used = [];
    proofs_pending = [];
    promises = [];
    mint_quotes = mint_quote MintQuoteState.paid ∷ [];
    melt_quotes = melt_quote MeltQuoteState.unpaid ∷ [];
    balance = λ k. pos 100;
    fees_paid = λ k. pos 0;
  };
  events = [];
  disable_melt = false;
}
