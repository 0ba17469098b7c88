-- ===== src/Mint/Ledger/QuoteChecks.antt =====
-- The parts of `mint_quote` and `melt_quote` of cashu/mint/ledger.py that read no table: requests, settings,
-- and the checks of a payment quote.
use nutshell.Base.{
  ℕ, ◌+◌, ℤ, pos, ltb_ℤ, eqb_ℤ, String, Bool, false, ◌&&◌, not, Option, none, some, ◌==◌, is_some,
  if◌then◌else◌,
}
use nutshell.Core.Currency.{CurrencyUnit, unit_eq, Amount, Rounding, to}
use nutshell.Core.Errors.{transaction_error, exception, lightning_error}
use nutshell.Core.Quotes.{MintQuote, MintQuoteState}
use nutshell.Core.Result.{Result, ok, err, require, raise_if, or_raise, ◌>>=◌, ◌>>◌}
use nutshell.Mint.Verification.{Env}
use nutshell.Mint.Verification.Quotes.{Backends, verify_and_get_unit_method}

-- The settings of quotes; a limit of None, or 0, is none.
pub record QuoteSettings : Type 0 where
  pub mint_max_mint_bolt11_sat : Option ℤ
  pub mint_max_melt_bolt11_sat : Option ℤ
  pub mint_max_balance : Option ℤ
  pub mint_bolt11_disable_mint : Bool
  pub mint_bolt11_disable_melt : Bool

-- `PostMintQuoteRequest` and `PostMeltQuoteRequest`; the amount of a partial payment stands for `is_mpp`.
pub record MintQuoteRequest : Type 0 where
  pub unit : String
  pub amount : ℤ
  pub description : Option String
  pub pubkey : Option String

pub record MeltQuoteRequest : Type 0 where
  pub unit : String
  pub request : String
  pub mpp_amount : Option ℤ

pub record PaymentQuoteResponse : Type 0 where
  pub checking_id : String
  pub amount : Amount
  pub fee : Amount

pub record InvoiceResponse : Type 0 where
  pub checking_id : Option String
  pub payment_request : Option String

-- What an invoice says; the date is added to the expiry.
pub record Invoice : Type 0 where
  pub amount_msat : Option ℤ
  pub date : ℕ
  pub expiry : Option ℕ

-- The backend, the invoice library, `lower` and `random_hash`; `none` is an exception.
pub record Invoices : Type 0 where
  pub supports_description : Bool
  pub supports_mpp : Bool
  pub create_invoice : Amount → Option String → Option InvoiceResponse
  pub get_payment_quote : MeltQuoteRequest → Option PaymentQuoteResponse
  pub decode : String → Option Invoice
  pub lower : String → String
  pub random_hash : String

-- Is there a limit, and is it exceeded?
abbrev pub exceeds : ℤ → Option ℤ → Bool
exceeds amount none = false
exceeds amount (some limit) = not (eqb_ℤ limit (pos 0)) && ltb_ℤ limit amount

abbrev pub expiry_of : Invoice → Option ℕ
expiry_of invoice = elim invoice.expiry [ none ↦ none | some e ↦ some (invoice.date + e) ]

-- A text that is there and not empty.
abbrev pub text_or_raise : Option String → Result String
text_or_raise none = err (lightning_error "could not fetch bolt11 payment request from backend")
text_or_raise (some t) =
    if t == ""
    then err (lightning_error "could not fetch bolt11 payment request from backend")
    else ok t

abbrev pub is_text_given : Option String → Bool
is_text_given none = false
is_text_given (some t) = not (t == "")

module _ (env : Env) (backends : Backends) (invoices : Invoices) where
  -- The state of the mint quote that a melt quote would pay.
  abbrev pub check_unpaid : MintQuoteState → Result (Unit {0})
  check_unpaid MintQuoteState.paid = err (transaction_error "mint quote already paid")
  check_unpaid MintQuoteState.issued = err (transaction_error "mint quote already issued")
  check_unpaid MintQuoteState.pending = err (transaction_error "mint quote is not unpaid")
  check_unpaid MintQuoteState.unpaid = ok tt

  unfoldable pub create_internal_melt_quote :
      MintQuote → MeltQuoteRequest → Result PaymentQuoteResponse
  create_internal_melt_quote mint_quote request = do
    (unit, method) ← verify_and_get_unit_method env backends request.unit "bolt11"
    require (invoices.lower request.request == mint_quote.request)
        (transaction_error "bolt11 requests do not match")
    require (mint_quote.unit == request.unit) (transaction_error "units do not match")
    require (mint_quote.method == method) (transaction_error "methods do not match")
    check_unpaid mint_quote.state
    raise_if (mint_quote.checking_id == "") (transaction_error "mint quote has no checking id")
    raise_if (is_some request.mpp_amount) (transaction_error "internal payments do not support mpp")
    ok (record {
      checking_id = mint_quote.checking_id;
      amount = record { unit = unit; amount = mint_quote.amount };
      fee = record { unit = unit; amount = pos 0 };
    })

  -- `melt_quote.is_mpp and melt_quote.mpp_amount != payment_quote.amount.to(Unit.msat).amount`
  abbrev pub check_partial : Option ℤ → Amount → Result (Unit {0})
  check_partial none amount = ok tt
  check_partial (some asked) amount = do
    in_msat ← to amount CurrencyUnit.msat Rounding.no_rounding
    require (eqb_ℤ asked in_msat.amount) (transaction_error "quote amount not as requested")

  unfoldable pub validate_payment_quote :
      MeltQuoteRequest → PaymentQuoteResponse → Result (Unit {0})
  validate_payment_quote request quote = do
    (unit, _) ← verify_and_get_unit_method env backends request.unit "bolt11"
    raise_if (quote.checking_id == "") (exception "quote has no checking id")
    check_partial request.mpp_amount quote.amount
    require (unit_eq quote.amount.unit unit)
        (transaction_error "payment quote amount units do not match")
    require (unit_eq quote.fee.unit unit) (transaction_error "payment quote fee units do not match")

  -- Not internal: the backend is asked.
  abbrev pub external_quote : MeltQuoteRequest → Result PaymentQuoteResponse
  external_quote request = do
    raise_if (is_some request.mpp_amount && not invoices.supports_mpp)
        (transaction_error "backend does not support mpp.")
    or_raise (invoices.get_payment_quote request) (exception "backend")

  abbrev pub internal_quote : MintQuote → MeltQuoteRequest → Result PaymentQuoteResponse
  internal_quote mint_quote request = do
    raise_if (is_some request.mpp_amount) (transaction_error "internal mpp not allowed.")
    create_internal_melt_quote mint_quote request

  -- An invoice of a mint quote in the same unit is paid internally.
  unfoldable pub payment_quote_for :
      MeltQuoteRequest → Option MintQuote → Result PaymentQuoteResponse
  payment_quote_for request none = external_quote request
  payment_quote_for request (some mint_quote) =
      if mint_quote.unit == request.unit
      then internal_quote mint_quote request
      else external_quote request
