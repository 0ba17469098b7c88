-- ===== src/Mint/Ledger/Quoted.antt =====
-- What `melt_quote` of cashu/mint/ledger.py give.
use nutshell.Base.{
  pos, String, true, false, Option, none, [], ◌∷◌, ◌==◌, ◌≡◌, refl, ap, sym, ◌∙◌, subst, arith,
}
use nutshell.Core.Currency.{CurrencyUnit, unit_eq, unit_name, Amount, Rounding, to}
use nutshell.Core.Errors.{transaction_error, not_allowed, exception, value_error}
use nutshell.Core.Quotes.{MintQuote, MeltQuote, MeltQuoteState}
use nutshell.Core.Result.{
  ok, require, raise_if, or_raise, require-eq-ok, raise_if-eq-ok, >>=-eq-ok, >>-eq-ok,
}
use nutshell.Mint.State.{Db, Mint, transaction}
use nutshell.Mint.Chains.{>>=-returns, lift-returns}
use nutshell.Mint.Quotes.{get_mint_quote, store_melt_quote}
use nutshell.Mint.Verification.{Env}
use nutshell.Mint.Verification.Quotes.{Backends, verify_and_get_unit_method}
use nutshell.Mint.Write.Quotes.{is_taken, store_new_melt_quote}
use nutshell.Mint.Ledger.Issued.{ok-inj}
use nutshell.Mint.Ledger.Settling.{has_amount, get_mint_quote-reads}
use nutshell.Mint.Ledger.QuoteChecks.{
  QuoteSettings, MeltQuoteRequest, PaymentQuoteResponse, Invoices, exceeds, expiry_of,
  check_partial, validate_payment_quote, payment_quote_for,
}
use nutshell.Mint.Ledger.Creating.{store_quoted, melt_quote}
use nutshell.Mint.Ledger.Priced.{Priced, payment_quote_for-Priced}

store_new_melt_quote-returns :
    (q : MeltQuote) (s t : Mint)
    → store_new_melt_quote q s ≡ (ok tt, t)
    → (is_taken q.checking_id s.db ≡ false)
      × (t ≡ record s {
        db = record s.db { melt_quotes = record q { change = [] } ∷ s.db.melt_quotes };
      })
unfolding store_new_melt_quote store_melt_quote transaction
store_new_melt_quote-returns q s t e = ground arith

module _ (env : Env) (settings : QuoteSettings) (backends : Backends) (invoices : Invoices) where
  to-same :
      (a b : Amount) (unit : CurrencyUnit)
      → unit_eq a.unit unit ≡ true
      → to a unit Rounding.no_rounding ≡ ok b
      → a ≡ b
  unfolding to
  to-same a b unit same e =
      let first : to a unit Rounding.no_rounding ≡ ok a = rw same refl in ok-inj (sym first ∙ e)

  validate-units :
      (request : MeltQuoteRequest) (p : PaymentQuoteResponse) (unit : CurrencyUnit)
      (method : String)
      → verify_and_get_unit_method env backends request.unit "bolt11" ≡ ok (unit, method)
      → validate_payment_quote env backends invoices request p ≡ ok tt
      → ((p.checking_id == "") ≡ false)
        × (unit_eq p.amount.unit unit ≡ true)
        × (unit_eq p.fee.unit unit ≡ true)
  unfolding validate_payment_quote
  validate-units request p unit method known e =
      let ((unit', method'), e₁, e₂) =
        >>=-eq-ok (verify_and_get_unit_method env backends request.unit "bolt11") _ e in
      let same : unit' ≡ unit = ap (λ x. x.0) (ok-inj (sym e₁ ∙ known)) in
      let (named, e₃) =
        >>-eq-ok (raise_if (p.checking_id == "") (exception "quote has no checking id")) _ e₂ in
      let (_, e₄) =
        >>-eq-ok (check_partial env backends invoices request.mpp_amount p.amount) _ e₃ in
      let (amounts, fees) =
        >>-eq-ok
          (require (unit_eq p.amount.unit unit')
            (transaction_error "payment quote amount units do not match"))
          _ e₄ in
      (
        raise_if-eq-ok _ _ named,
        ap (unit_eq p.amount.unit) (sym same) ∙ require-eq-ok _ _ amounts,
        ap (unit_eq p.fee.unit) (sym same) ∙ require-eq-ok _ _ fees,
      )

  -- A melt quote that was created.
  pub record IsQuoted (request : MeltQuoteRequest) (q : MeltQuote) (p : PaymentQuoteResponse)
      (before after : Db) : Type 0 where
    pub unpaid : q.state ≡ MeltQuoteState.unpaid
    pub same_request : q.request ≡ invoices.lower request.request
    pub checking_id : q.checking_id ≡ p.checking_id
    pub amount : q.amount ≡ p.amount.amount
    pub fee_reserve : q.fee_reserve ≡ p.fee.amount
    pub named : (p.checking_id == "") ≡ false
    pub within : exceeds p.amount.amount settings.mint_max_melt_bolt11_sat ≡ false
    pub was_free : is_taken p.checking_id before ≡ false
    pub stored : after ≡ record before { melt_quotes = q ∷ before.melt_quotes }

  store_quoted-IsQuoted :
      (request : MeltQuoteRequest) (unit : CurrencyUnit) (method : String)
      (p : PaymentQuoteResponse) (s t : Mint) (q : MeltQuote)
      → verify_and_get_unit_method env backends request.unit "bolt11" ≡ ok (unit, method)
      → store_quoted env settings backends invoices request unit method p s ≡ (ok q, t)
      → IsQuoted request q p s.db t.db
  unfolding store_quoted
  store_quoted-IsQuoted request unit method p s t q known e =
      let (_, valid, e₁) =
        lift-returns (validate_payment_quote env backends invoices request p) _ s e in
      let (named, amounts, fees) = validate-units request p unit method known valid in
      let (amount, same, e₂) = lift-returns (to p.amount unit Rounding.no_rounding) _ s e₁ in
      let (_, within, e₃) =
        lift-returns
          (raise_if (exceeds amount.amount settings.mint_max_melt_bolt11_sat)
            (not_allowed "Maximum melt amount"))
          _ s e₂ in
      let (invoice, _, e₄) =
        lift-returns (or_raise (invoices.decode request.request) value_error) _ s e₃ in
      let (_, _, e₅) =
        lift-returns
          (require (has_amount invoice.amount_msat) (transaction_error "invoice has no amount.")) _
          s e₄ in
      let (fee, same_fee, e₆) = lift-returns (to p.fee unit Rounding.no_rounding) _ s e₅ in
      let made : MeltQuote = record {
        quote = invoices.random_hash;
        method = method;
        request = invoices.lower request.request;
        checking_id = p.checking_id;
        unit = unit_name unit;
        amount = amount.amount;
        fee_reserve = fee.amount;
        state = MeltQuoteState.unpaid;
        paid_time = none;
        fee_paid = pos 0;
        payment_preimage = none;
        expiry = expiry_of invoice;
        change = [];
      } in
      let (_, u, e₇, e₈) = >>=-returns (store_new_melt_quote made) _ s e₆ in
      let (free, stored) = store_new_melt_quote-returns made s u e₇ in
      let is_made : made ≡ q = ok-inj (ap (λ r. r.0) e₈) in
      let same_amount : p.amount ≡ amount = to-same p.amount amount unit amounts same in
      subst (λ (x : MeltQuote). IsQuoted request x p s.db t.db) is_made
        (record {
          unpaid = refl;
          same_request = refl;
          checking_id = refl;
          amount = ap (λ (x : Amount). x.amount) (sym same_amount);
          fee_reserve = ap (λ (x : Amount). x.amount) (sym (to-same p.fee fee unit fees same_fee));
          named = named;
          within =
              ap (λ (x : Amount). exceeds x.amount settings.mint_max_melt_bolt11_sat) same_amount
              ∙ raise_if-eq-ok _ _ within;
          was_free = free;
          stored = ap (λ r. r.1.db) (sym e₈) ∙ ap (λ (x : Mint). x.db) stored;
        })

  -- When a melt quote is created, it is stored as unpaid, for the request in lower case, in front of the
  -- others, and no other table changes; no quote with its checking id, which is not empty, was pending or
  -- paid; its amount, which is within the limit, its fee reserve and its checking id are those of a payment
  -- quote: either of a mint quote with the same request, which is unpaid and is paid in full and without a
  -- fee, or of the backend.
  pub melt_quote-IsQuoted :
      (request : MeltQuoteRequest) (s t : Mint) (q : MeltQuote)
      → melt_quote env settings backends invoices request s ≡ (ok q, t)
      → (found : Option MintQuote) × (p : PaymentQuoteResponse) × (get_mint_quote "" ""
            (invoices.lower request.request)
            s
          ≡ (ok found, s))
        × Priced env backends invoices request found p
        × IsQuoted request q p s.db t.db
  unfolding melt_quote
  melt_quote-IsQuoted request s t q e =
      let (_, _, e₁) =
        lift-returns
          (raise_if settings.mint_bolt11_disable_melt
            (not_allowed "Melting with bol11 is disabled."))
          _ s e in
      let ((unit, method), known, e₂) =
        lift-returns (verify_and_get_unit_method env backends request.unit "bolt11") _ s e₁ in
      let (found, u, e₃, e₄) =
        >>=-returns (get_mint_quote "" "" (invoices.lower request.request)) _ s e₂ in
      let same = get_mint_quote-reads "" "" (invoices.lower request.request) s u found e₃ in
      let (p, priced, e₅) =
        lift-returns (payment_quote_for env backends invoices request found) _ u e₄ in
      let quoted = store_quoted-IsQuoted request unit method p u t q known e₅ in
      (
        found,
        p,
        e₃ ∙ (λ i. (ok found, same i)),
        payment_quote_for-Priced env backends invoices request found p priced,
        subst (λ (x : Mint). IsQuoted request q p x.db t.db) same quoted,
      )
