-- ===== src/Mint/History/Quotes.antt =====
-- The creation of quotes, under the law of Mint/History/Grows.
use nutshell.Base.{ℤ, pos, ltb_ℤ, ◌&&◌, not, String, none, refl, arith, Bool-cases, inl, inr}
use nutshell.Core.Currency.{CurrencyUnit, Rounding, to}
use nutshell.Core.Errors.{
  transaction_error, not_allowed, exception, value_error, transaction_amount_exceeds_limit,
}
use nutshell.Core.Quotes.{MintQuote, MeltQuote}
use nutshell.Core.Result.{require, raise_if, or_raise}
use nutshell.Mint.State.{Mint, mint_quote_event, melt_quote_event}
use nutshell.Mint.Quotes.{store_mint_quote, store_melt_quote}
use nutshell.Mint.Verification.{Env}
use nutshell.Mint.Verification.Quotes.{Backends, verify_and_get_unit_method}
use nutshell.Mint.Write.MintQuotes.{has_row, is_issued-stored}
use nutshell.Mint.Write.Quotes.{store_new_melt_quote}
use nutshell.Mint.Ledger.Settling.{has_amount}
use nutshell.Mint.Ledger.QuoteChecks.{
  QuoteSettings, MintQuoteRequest, MeltQuoteRequest, PaymentQuoteResponse, Invoices, exceeds,
  text_or_raise, is_text_given, validate_payment_quote, payment_quote_for,
}
use nutshell.Mint.Ledger.Creating.{check_max_balance, mint_quote, store_quoted, melt_quote}
use nutshell.Mint.History.Grows.{
  Grows, Keeps-refl, OnlyGrows, untouched, lift_then-OnlyGrows, announced-OnlyGrows, >>=-OnlyGrows,
}
use nutshell.Mint.History.Writes.{get_mint_quote-OnlyGrows}

store_mint_quote-OnlyGrows : (q : MintQuote) → OnlyGrows (store_mint_quote q)
unfolding store_mint_quote
store_mint_quote-OnlyGrows q = record {
  grows = λ s. elim (Bool-cases (has_row q.quote s.db.mint_quotes)) [
    | inl there ↦ rw there (Keeps-refl s.db)
    | inr fresh ↦ rw fresh (record {
      spent = Grows.unchanged;
      issued = λ id h. is_issued-stored id (record q { expiry = none }) s.db.mint_quotes fresh h;
    })
  ];
}

store_new_melt_quote-OnlyGrows : (q : MeltQuote) → OnlyGrows (store_new_melt_quote q)
unfolding store_new_melt_quote store_melt_quote nutshell.Mint.State.transaction
store_new_melt_quote-OnlyGrows q = untouched (λ s. (ground arith, ground arith))

module _ (env : Env) (settings : QuoteSettings) (backends : Backends) (invoices : Invoices) where
  check_max_balance-OnlyGrows :
      (unit : CurrencyUnit) (amount : ℤ)
      → OnlyGrows (check_max_balance env settings backends invoices unit amount)
  check_max_balance-OnlyGrows unit amount = untouched (λ s. (refl, refl))

  pub mint_quote-OnlyGrows :
      (request : MintQuoteRequest) → OnlyGrows (mint_quote env settings backends invoices request)
  unfolding mint_quote
  mint_quote-OnlyGrows request =
      lift_then-OnlyGrows
        (require (ltb_ℤ (pos 0) request.amount) (transaction_error "amount must be positive"))
        (λ _.
          lift_then-OnlyGrows
            (raise_if (exceeds request.amount settings.mint_max_mint_bolt11_sat)
              (transaction_amount_exceeds_limit "Maximum mint amount"))
            (λ _.
              lift_then-OnlyGrows
                (raise_if settings.mint_bolt11_disable_mint
                  (not_allowed "Minting with bolt11 is disabled."))
                (λ _.
                  lift_then-OnlyGrows
                    (verify_and_get_unit_method env backends request.unit "bolt11")
                    (λ um.
                      lift_then-OnlyGrows
                        (raise_if
                          (is_text_given request.description && not invoices.supports_description)
                          (not_allowed "Backend does not support descriptions."))
                        (λ _. >>=-OnlyGrows (check_max_balance-OnlyGrows um.0 request.amount) (λ _.
                          lift_then-OnlyGrows
                            (or_raise
                              (invoices.create_invoice
                                (record { unit = um.0; amount = request.amount })
                                request.description)
                              (exception "backend"))
                            (λ response.
                              lift_then-OnlyGrows (text_or_raise response.payment_request)
                                (λ payment_request.
                                  lift_then-OnlyGrows (text_or_raise response.checking_id) (λ _.
                                    lift_then-OnlyGrows
                                      (or_raise (invoices.decode payment_request) value_error)
                                      (λ invoice.
                                        >>=-OnlyGrows (store_mint_quote-OnlyGrows _)
                                          (λ _. announced-OnlyGrows _ _)))))))))))

  store_quoted-OnlyGrows :
      (request : MeltQuoteRequest) (unit : CurrencyUnit) (method : String)
      (p : PaymentQuoteResponse)
      → OnlyGrows (store_quoted env settings backends invoices request unit method p)
  unfolding store_quoted
  store_quoted-OnlyGrows request unit method p =
      lift_then-OnlyGrows (validate_payment_quote env backends invoices request p) (λ _.
        lift_then-OnlyGrows (to p.amount unit Rounding.no_rounding) (λ amount.
          lift_then-OnlyGrows
            (raise_if (exceeds amount.amount settings.mint_max_melt_bolt11_sat)
              (not_allowed "Maximum melt amount"))
            (λ _.
              lift_then-OnlyGrows (or_raise (invoices.decode request.request) value_error)
                (λ invoice.
                  lift_then-OnlyGrows
                    (require (has_amount invoice.amount_msat)
                      (transaction_error "invoice has no amount."))
                    (λ _. lift_then-OnlyGrows (to p.fee unit Rounding.no_rounding) (λ fee.
                      >>=-OnlyGrows (store_new_melt_quote-OnlyGrows _)
                        (λ _. announced-OnlyGrows _ _)))))))

  pub melt_quote-OnlyGrows :
      (request : MeltQuoteRequest) → OnlyGrows (melt_quote env settings backends invoices request)
  unfolding melt_quote
  melt_quote-OnlyGrows request =
      lift_then-OnlyGrows
        (raise_if settings.mint_bolt11_disable_melt (not_allowed "Melting with bol11 is disabled."))
        (λ _.
          lift_then-OnlyGrows (verify_and_get_unit_method env backends request.unit "bolt11") (λ um.
            >>=-OnlyGrows (get_mint_quote-OnlyGrows "" "" (invoices.lower request.request))
              (λ found.
                lift_then-OnlyGrows (payment_quote_for env backends invoices request found)
                  (λ p. store_quoted-OnlyGrows request um.0 um.1 p))))
