-- ===== src/Mint/Ledger/Creating.antt =====
-- The creation of quotes and `restore` of cashu/mint/ledger.py, with `get_unit_balance_and_fees` of
-- cashu/mint/watchdog.py.
use nutshell.Base.{ℤ, pos, ◌+ℤ◌, ltb_ℤ, String, ◌&&◌, not, none, some, List, [], ◌∷◌, if◌then◌else◌}
use nutshell.Core.Currency.{CurrencyUnit, unit_eq, unit_name, Rounding, to}
use nutshell.Core.Errors.{
  transaction_error, not_allowed, exception, value_error, transaction_amount_exceeds_limit,
}
use nutshell.Core.Proofs.{BlindedMessage, BlindedSignature}
use nutshell.Core.Quotes.{MintQuote, MeltQuote, MintQuoteState, MeltQuoteState}
use nutshell.Core.Result.{require, raise_if, or_raise}
use nutshell.Mint.State.{
  Db, Keysets, Action, lift, pure, submit, mint_quote_event, melt_quote_event, ◌>>=◌, ◌>>◌,
}
use nutshell.Mint.Crud.{get_blind_signature}
use nutshell.Mint.Quotes.{get_mint_quote, store_mint_quote}
use nutshell.Mint.Verification.{Env}
use nutshell.Mint.Verification.Quotes.{Backends, verify_and_get_unit_method}
use nutshell.Mint.Write.Quotes.{store_new_melt_quote}
use nutshell.Mint.Ledger.Settling.{has_amount}
use nutshell.Mint.Ledger.QuoteChecks.{
  QuoteSettings, MintQuoteRequest, MeltQuoteRequest, PaymentQuoteResponse, Invoices, exceeds,
  expiry_of, text_or_raise, is_text_given, validate_payment_quote, payment_quote_for,
}

-- `get_unit_balance_and_fees`: the table of keysets holds the keysets that the ledger has loaded.
unfoldable pub get_unit_balance_and_fees : CurrencyUnit → Keysets → Db → ℤ × ℤ
get_unit_balance_and_fees unit [] db = (pos 0, pos 0)
get_unit_balance_and_fees unit ((k, m) ∷ keysets) db =
    let (balance, fees) = get_unit_balance_and_fees unit keysets db in
    if unit_eq m.unit unit
    then (db.balance m.id +ℤ balance, db.fees_paid m.id +ℤ fees)
    else (balance, fees)

module _ (env : Env) (settings : QuoteSettings) (backends : Backends) (invoices : Invoices) where
  open env use {keysets}

  -- `if settings.mint_max_balance:` the balance with the amount must stay within it.
  abbrev pub check_max_balance : CurrencyUnit → ℤ → Action (Unit {0})
  check_max_balance unit amount s = (
    raise_if
        (exceeds ((get_unit_balance_and_fees unit keysets s.db).0 +ℤ amount)
          settings.mint_max_balance)
        (not_allowed "Mint has reached maximum balance."),
    s,
  )

  unfoldable pub mint_quote : MintQuoteRequest → Action MintQuote
  mint_quote request = do
    lift (require (ltb_ℤ (pos 0) request.amount) (transaction_error "amount must be positive"))
    lift (
        raise_if (exceeds request.amount settings.mint_max_mint_bolt11_sat)
          (transaction_amount_exceeds_limit "Maximum mint amount"))
    lift (
        raise_if settings.mint_bolt11_disable_mint (not_allowed "Minting with bolt11 is disabled."))
    (unit, method) ← lift (verify_and_get_unit_method env backends request.unit "bolt11")
    lift (
        raise_if (is_text_given request.description && not invoices.supports_description)
          (not_allowed "Backend does not support descriptions."))
    check_max_balance unit request.amount
    response ← lift (
        or_raise
          (invoices.create_invoice (record { unit = unit; amount = request.amount })
            request.description)
          (exception "backend"))
    payment_request ← lift (text_or_raise response.payment_request)
    checking_id ← lift (text_or_raise response.checking_id)
    invoice ← lift (or_raise (invoices.decode payment_request) value_error)
    let quote : MintQuote = record {
      quote = invoices.random_hash;
      method = method;
      request = invoices.lower payment_request;
      checking_id = checking_id;
      unit = request.unit;
      amount = request.amount;
      state = MintQuoteState.unpaid;
      paid_time = none;
      expiry = expiry_of invoice;
      pubkey = request.pubkey;
    }
    store_mint_quote quote
    submit (mint_quote_event quote)
    pure quote

  -- From the payment quote on.
  unfoldable pub store_quoted :
      MeltQuoteRequest → CurrencyUnit → String → PaymentQuoteResponse → Action MeltQuote
  store_quoted request unit method payment_quote = do
    lift (validate_payment_quote env backends invoices request payment_quote)
    amount ← lift (to payment_quote.amount unit Rounding.no_rounding)
    lift (
        raise_if (exceeds amount.amount settings.mint_max_melt_bolt11_sat)
          (not_allowed "Maximum melt amount"))
    invoice ← lift (or_raise (invoices.decode request.request) value_error)
    lift (require (has_amount invoice.amount_msat) (transaction_error "invoice has no amount."))
    fee ← lift (to payment_quote.fee unit Rounding.no_rounding)
    let quote : MeltQuote = record {
      quote = invoices.random_hash;
      method = method;
      request = invoices.lower request.request;
      checking_id = payment_quote.checking_id;
      unit = unit_name unit;
      amount = amount.amount;
      fee_reserve = fee.amount;
      state = MeltQuoteState.unpaid;
      paid_time = none;
      fee_paid = pos 0;
      payment_preimage = none;
      expiry = expiry_of invoice;
      change = [];
    }
    store_new_melt_quote quote
    submit (melt_quote_event quote)
    pure quote

  -- The response shows fields of the quote that is returned here.
  unfoldable pub melt_quote : MeltQuoteRequest → Action MeltQuote
  melt_quote request = do
    lift
        (raise_if settings.mint_bolt11_disable_melt (not_allowed "Melting with bol11 is disabled."))
    (unit, method) ← lift (verify_and_get_unit_method env backends request.unit "bolt11")
    mint_quote ← get_mint_quote "" "" (invoices.lower request.request)
    payment_quote ← lift (payment_quote_for env backends invoices request mint_quote)
    store_quoted request unit method payment_quote

-- The outputs that were signed, each with its signature, in the order asked.
unfoldable pub restore : List BlindedMessage → Db → List (BlindedMessage × BlindedSignature)
restore [] db = []
restore (o ∷ outputs) db =
    let rest = restore outputs db in
    elim (get_blind_signature o.B_ db) [ none ↦ rest | some signature ↦ (o, signature) ∷ rest ]
