-- ===== src/Mint/Ledger/Priced.antt =====
-- Where the terms of a payment quote come from, in `melt_quote` of cashu/mint/ledger.py.
use nutshell.Base.{
  pos, Bool, false, ◌&&◌, not, Option, none, some, ◌==◌, ◌≡◌, ◌⊎◌, refl, ap, sym, subst, arith, inl,
  inr, is_some, eq_iff, Bool-cases, if◌then◌else◌,
}
use nutshell.Core.Errors.{transaction_error}
use nutshell.Core.Quotes.{MintQuote, MintQuoteState}
use nutshell.Core.Result.{
  ok, require, raise_if, require-eq-ok, raise_if-eq-ok, or_raise-eq-ok, >>=-eq-ok, >>-eq-ok,
}
use nutshell.Mint.Verification.{Env}
use nutshell.Mint.Verification.Quotes.{Backends, verify_and_get_unit_method}
use nutshell.Mint.Ledger.Issued.{ok-inj}
use nutshell.Mint.Ledger.QuoteChecks.{
  MeltQuoteRequest, PaymentQuoteResponse, Invoices, check_unpaid, create_internal_melt_quote,
  external_quote, internal_quote, payment_quote_for,
}

module _ (env : Env) (backends : Backends) (invoices : Invoices) where
  -- The terms of an internal payment: those of the unpaid mint quote, without a fee.
  pub record IsInternal (request : MeltQuoteRequest) (m : MintQuote) (p : PaymentQuoteResponse)
      : Type 0 where
    pub same_request : m.request ≡ invoices.lower request.request
    pub unpaid : m.state ≡ MintQuoteState.unpaid
    pub whole : request.mpp_amount ≡ none
    pub checking_id : p.checking_id ≡ m.checking_id
    pub amount : p.amount.amount ≡ m.amount
    pub no_fee : p.fee.amount ≡ pos 0

  unpaid-eq :
      (state : MintQuoteState)
      → check_unpaid env backends invoices state ≡ ok tt
      → state ≡ MintQuoteState.unpaid
  unpaid-eq state h = ground arith

  not_some : {A : Type 0} (o : Option A) → is_some o ≡ false → o ≡ none
  not_some none h = refl
  not_some (some a) h = cc

  create_internal_melt_quote-IsInternal :
      (m : MintQuote) (request : MeltQuoteRequest) (p : PaymentQuoteResponse)
      → create_internal_melt_quote env backends invoices m request ≡ ok p
      → IsInternal request m p
  unfolding create_internal_melt_quote
  create_internal_melt_quote-IsInternal m request p e =
      let ((unit, method), e₁, e₂) =
        >>=-eq-ok (verify_and_get_unit_method env backends request.unit "bolt11") _ e in
      let (requests, e₃) =
        >>-eq-ok
          (require (invoices.lower request.request == m.request)
            (transaction_error "bolt11 requests do not match"))
          _ e₂ in
      let (_, e₄) =
        >>-eq-ok (require (m.unit == request.unit) (transaction_error "units do not match")) _ e₃ in
      let (_, e₅) =
        >>-eq-ok (require (m.method == method) (transaction_error "methods do not match")) _ e₄ in
      let (unpaid, e₆) = >>-eq-ok (check_unpaid env backends invoices m.state) _ e₅ in
      let (_, e₇) =
        >>-eq-ok
          (raise_if (m.checking_id == "") (transaction_error "mint quote has no checking id")) _
          e₆ in
      let (whole, e₈) =
        >>-eq-ok
          (raise_if (is_some request.mpp_amount)
            (transaction_error "internal payments do not support mpp"))
          _ e₇ in
      let made = ok-inj e₈ in
      record {
        same_request =
            ground (
              arith,
              require-eq-ok _ _ requests,
              eq_iff (invoices.lower request.request) m.request,
            );
        unpaid = unpaid-eq m.state unpaid;
        whole = not_some request.mpp_amount (raise_if-eq-ok _ _ whole);
        checking_id = sym (ap (λ (x : PaymentQuoteResponse). x.checking_id) made);
        amount = sym (ap (λ (x : PaymentQuoteResponse). x.amount.amount) made);
        no_fee = sym (ap (λ (x : PaymentQuoteResponse). x.fee.amount) made);
      }

  -- Where the terms come from.
  abbrev pub Priced : MeltQuoteRequest → Option MintQuote → PaymentQuoteResponse → Type 0
  Priced request found p =
      ((m : MintQuote) × (found ≡ some m) × IsInternal request m p)
      ⊎ (invoices.get_payment_quote request ≡ some p)

  external-priced :
      (request : MeltQuoteRequest) (p : PaymentQuoteResponse)
      → external_quote env backends invoices request ≡ ok p
      → invoices.get_payment_quote request ≡ some p
  external-priced request p e =
      let (_, e₁) =
        >>-eq-ok
          (raise_if (is_some request.mpp_amount && not invoices.supports_mpp)
            (transaction_error "backend does not support mpp."))
          _ e in
      or_raise-eq-ok _ _ e₁

  pub payment_quote_for-Priced :
      (request : MeltQuoteRequest) (found : Option MintQuote) (p : PaymentQuoteResponse)
      → payment_quote_for env backends invoices request found ≡ ok p
      → Priced request found p
  unfolding payment_quote_for
  payment_quote_for-Priced request none p e = inr (external-priced request p e)
  payment_quote_for-Priced request (some m) p e =
      let way : Bool → Type 0 = λ b.
        (if b
          then internal_quote env backends invoices m request
          else external_quote env backends invoices request)
        ≡ ok p in
      elim (Bool-cases (m.unit == request.unit)) [
        | inl same ↦
            let (_, e₁) =
              >>-eq-ok
                (raise_if (is_some request.mpp_amount)
                  (transaction_error "internal mpp not allowed."))
                _ (subst way same e) in
            inl (m, refl, create_internal_melt_quote-IsInternal m request p e₁)
        | inr other ↦ inr (external-priced request p (subst way other e))
      ]
