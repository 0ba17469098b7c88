-- ===== src/Mint/Lightning.antt =====
-- What a Lightning backend answers (cashu/lightning/base.py). The backends call external nodes, so
-- their answers are a parameter; `none` stands for an exception.
use nutshell.Base.{ℤ, String, Bool, true, false, Option}
use nutshell.Core.Currency.{Amount}
use nutshell.Core.Quotes.{MeltQuote}

pub data PaymentResult : Type 0 where
  settled failed pending unknown : PaymentResult

pub record PaymentResponse : Type 0 where
  pub result : PaymentResult
  pub checking_id : Option String
  pub fee : Option Amount
  pub preimage : Option String

pub record PaymentStatus : Type 0 where
  pub result : PaymentResult
  pub fee : Option Amount
  pub preimage : Option String

-- `status.failed or status.unknown`
abbrev pub is_failure : PaymentResult → Bool
is_failure PaymentResult.failed = true
is_failure PaymentResult.unknown = true
is_failure PaymentResult.settled = false
is_failure PaymentResult.pending = false

-- The answers during one call: `get_payment_status` before and after the payment is tried, and
-- `pay_invoice` with its fee limit in thousandths.
pub record Payments : Type 0 where
  pub status_before : String → Option PaymentStatus
  pub pay_invoice : MeltQuote → ℤ → Option PaymentResponse
  pub status_after : String → Option PaymentStatus
