-- ===== src/Core/Quotes.antt =====
-- Mint and melt quotes of cashu/core/base.py: the states, the fields that the mint reads, and the
-- guards of `__setattr__` on the attribute `state`.
pub mod Life
use nutshell.Base.{List, ℤ, ℕ, Bool, true, false, Option, String}
use nutshell.Core.Proofs.{BlindedSignature}
use nutshell.Core.Errors.{exception}
use nutshell.Core.Result.{Result, ok, err, ◌>>=◌}

pub data MintQuoteState : Type 0 where
  unpaid paid pending issued : MintQuoteState

pub data MeltQuoteState : Type 0 where
  unpaid pending paid : MeltQuoteState

pub record MintQuote : Type 0 where
  pub quote : String
  pub method : String
  pub request : String
  pub checking_id : String
  pub unit : String
  pub amount : ℤ
  pub state : MintQuoteState
  pub paid_time : Option ℕ
  pub expiry : Option ℕ
  pub pubkey : Option String

pub record MeltQuote : Type 0 where
  pub quote : String
  pub method : String
  pub request : String
  pub checking_id : String
  pub unit : String
  pub amount : ℤ
  pub fee_reserve : ℤ
  pub state : MeltQuoteState
  pub paid_time : Option ℕ
  pub fee_paid : ℤ
  pub payment_preimage : Option String
  pub expiry : Option ℕ
  pub change : List BlindedSignature

abbrev pub mint_state_eq : MintQuoteState → MintQuoteState → Bool
mint_state_eq MintQuoteState.unpaid MintQuoteState.unpaid = true
mint_state_eq MintQuoteState.paid MintQuoteState.paid = true
mint_state_eq MintQuoteState.pending MintQuoteState.pending = true
mint_state_eq MintQuoteState.issued MintQuoteState.issued = true
mint_state_eq _ _ = false

abbrev pub melt_state_eq : MeltQuoteState → MeltQuoteState → Bool
melt_state_eq MeltQuoteState.unpaid MeltQuoteState.unpaid = true
melt_state_eq MeltQuoteState.pending MeltQuoteState.pending = true
melt_state_eq MeltQuoteState.paid MeltQuoteState.paid = true
melt_state_eq _ _ = false

-- Which new value the guards of `MintQuote.__setattr__` let through.
abbrev mint_guard : MintQuoteState → MintQuoteState → Result (Unit {0})
mint_guard MintQuoteState.unpaid MintQuoteState.paid = ok tt
mint_guard MintQuoteState.unpaid _ = err (exception "Cannot change state of an unpaid mint quote.")
mint_guard MintQuoteState.paid MintQuoteState.pending = ok tt
mint_guard MintQuoteState.paid MintQuoteState.issued = ok tt
mint_guard MintQuoteState.paid _ = err (exception "Cannot change state of a paid mint quote.")
mint_guard MintQuoteState.pending MintQuoteState.paid = ok tt
mint_guard MintQuoteState.pending MintQuoteState.issued = ok tt
mint_guard MintQuoteState.pending _ = err (exception "Cannot change state of a pending mint quote.")
mint_guard MintQuoteState.issued _ = err (exception "Cannot change state of an issued mint quote.")

-- `quote.state = value` on a mint quote
unfoldable pub set_mint_state : MintQuote → MintQuoteState → Result MintQuote
set_mint_state q value = mint_guard q.state value >>= λ _. ok (record q { state = value })

abbrev melt_guard : MeltQuoteState → MeltQuoteState → Result (Unit {0})
melt_guard MeltQuoteState.unpaid MeltQuoteState.pending = ok tt
melt_guard MeltQuoteState.unpaid MeltQuoteState.paid = ok tt
melt_guard MeltQuoteState.unpaid _ = err (exception "Cannot change state of an unpaid melt quote.")
melt_guard MeltQuoteState.pending _ = ok tt
melt_guard MeltQuoteState.paid _ = err (exception "Cannot change state of a paid melt quote.")

-- `quote.state = value` on a melt quote
unfoldable pub set_melt_state : MeltQuote → MeltQuoteState → Result MeltQuote
set_melt_state q value = melt_guard q.state value >>= λ _. ok (record q { state = value })
