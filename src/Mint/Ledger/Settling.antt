-- ===== src/Mint/Ledger/Settling.antt =====
-- `melt_mint_settle_internally` of cashu/mint/ledger.py: a melt quote for the invoice of a mint quote
-- of the same mint is settled without the backend, and both or none of the two become paid.
use nutshell.Base.{
  ℕ, ℤ, pos, ◌/◌, String, Bool, false, not, Option, none, some, ◌∷◌, map, ◌==◌, ◌≡◌, ◌⊎◌, refl, ap,
  ◌∙◌, sym, subst, arith, inl, inr, eqb_ℤ, eqb_ℤ→eq, eq_iff, if◌then◌else◌, Bool-cases,
}
use nutshell.Core.Errors.{transaction_error, value_error}
use nutshell.Core.Quotes.{
  MintQuote, MeltQuote, MintQuoteState, MeltQuoteState, melt_state_eq, set_mint_state,
  set_melt_state,
}
use nutshell.Core.Result.{
  Result, ok, err, require, raise_if, or_raise, require-eq-ok, raise_if-eq-ok,
}
use nutshell.Mint.State.{
  Mint, mint_quote_event, melt_quote_event, Action, lift, pure, submit, transaction, ◌>>=◌, ◌>>◌,
}
use nutshell.Mint.Chains.{>>=-returns, lift-returns}
use nutshell.Mint.Ledger.Issued.{ok-inj}
use nutshell.Mint.Quotes.{
  get_mint_quote, update_mint_quote, update_melt_quote, updated_mint_row, updated_melt_row,
}
use nutshell.Mint.Verification.{Env}
use nutshell.Mint.Verification.Quotes.{Backends}

-- The truth of an amount that may be missing.
abbrev pub has_amount : Option ℤ → Bool
has_amount none = false
has_amount (some a) = not (eqb_ℤ a (pos 0))

abbrev already_paid : MintQuoteState → Result (Unit {0})
already_paid MintQuoteState.paid = err (transaction_error "mint quote already paid")
already_paid MintQuoteState.issued = err (transaction_error "mint quote already issued")
already_paid MintQuoteState.pending = err (transaction_error "mint quote is not unpaid")
already_paid MintQuoteState.unpaid = ok tt

already_paid-unpaid :
    (state : MintQuoteState) → already_paid state ≡ ok tt → state ≡ MintQuoteState.unpaid
already_paid-unpaid state h = ground arith

-- Reading a quote changes nothing.
pub get_mint_quote-reads :
    (id checking_id request : String) (s t : Mint) (found : Option MintQuote)
    → get_mint_quote id checking_id request s ≡ (ok found, t)
    → t ≡ s
unfolding get_mint_quote
get_mint_quote-reads id checking_id request s t found e = ground arith

module _ (env : Env) (backends : Backends) where
  -- `int(time.time())`
  abbrev seconds : Option ℕ
  seconds = some (env.script.now / 1000000)

  abbrev pub settled_melt : MeltQuote → MeltQuote
  settled_melt q = record q { fee_paid = pos 0; state = MeltQuoteState.paid; paid_time = seconds }

  abbrev pub settled_mint : MintQuote → MintQuote
  settled_mint q = record q { state = MintQuoteState.paid; paid_time = seconds }

  -- Both quotes are marked in one transaction.
  unfoldable pub settle_both : MeltQuote → MintQuote → Action MeltQuote
  settle_both melt_quote mint_quote = do
    melt_paid ← lift (set_melt_state (record melt_quote { fee_paid = pos 0 }) MeltQuoteState.paid)
    mint_paid ← lift (set_mint_state mint_quote MintQuoteState.paid)
    let melt_now : MeltQuote = record melt_paid { paid_time = seconds }
    let mint_now : MintQuote = record mint_paid { paid_time = seconds }
    transaction (update_melt_quote melt_now >> update_mint_quote mint_now)
    submit (melt_quote_event melt_now)
    submit (mint_quote_event mint_now)
    pure melt_now

  unfoldable pub check_settlement : MeltQuote → MintQuote → Action MeltQuote
  check_settlement melt_quote mint_quote = do
    lift (
        raise_if (melt_state_eq melt_quote.state MeltQuoteState.paid)
          (transaction_error "melt quote already paid"))
    amount_msat ← lift (or_raise (backends.amount_msat melt_quote.request) value_error)
    lift (require (has_amount amount_msat) (transaction_error "invoice has no amount."))
    lift (
        require (eqb_ℤ mint_quote.amount melt_quote.amount)
          (transaction_error "amounts do not match"))
    lift (
        require (melt_quote.request == mint_quote.request)
          (transaction_error "bolt11 requests do not match"))
    lift (
        require (mint_quote.method == melt_quote.method) (transaction_error "methods do not match"))
    lift (already_paid mint_quote.state)
    settle_both melt_quote mint_quote

  unfoldable pub settle_found : MeltQuote → Option MintQuote → Action MeltQuote
  settle_found melt_quote none = pure melt_quote
  settle_found melt_quote (some mint_quote) =
      if mint_quote.unit == melt_quote.unit
      then check_settlement melt_quote mint_quote
      else pure melt_quote

  unfoldable pub melt_mint_settle_internally : MeltQuote → Action MeltQuote
  melt_mint_settle_internally melt_quote =
      get_mint_quote "" "" melt_quote.request >>= settle_found melt_quote

  -- What an internal settlement has done.
  pub record IsSettled (melt_quote : MeltQuote) (mint_quote : MintQuote) (before after : Mint)
      : Type 0 where
    pub same_request : mint_quote.request ≡ melt_quote.request
    pub same_amount : mint_quote.amount ≡ melt_quote.amount
    pub same_unit : mint_quote.unit ≡ melt_quote.unit
    pub was_unpaid : mint_quote.state ≡ MintQuoteState.unpaid
    pub not_paid : melt_state_eq melt_quote.state MeltQuoteState.paid ≡ false
    pub both : after ≡ record before {
      db = record before.db {
        melt_quotes = map (updated_melt_row (settled_melt melt_quote)) before.db.melt_quotes;
        mint_quotes = map (updated_mint_row (settled_mint mint_quote)) before.db.mint_quotes;
      };
      events =
          mint_quote_event (settled_mint mint_quote)
          ∷ melt_quote_event (settled_melt melt_quote)
          ∷ before.events;
    }

  settle_both-returns :
      (melt_quote : MeltQuote) (mint_quote : MintQuote) (s t : Mint) (q : MeltQuote)
      → settle_both melt_quote mint_quote s ≡ (ok q, t)
      → (q ≡ settled_melt melt_quote)
        × (t ≡ record s {
          db = record s.db {
            melt_quotes = map (updated_melt_row (settled_melt melt_quote)) s.db.melt_quotes;
            mint_quotes = map (updated_mint_row (settled_mint mint_quote)) s.db.mint_quotes;
          };
          events =
              mint_quote_event (settled_mint mint_quote)
              ∷ melt_quote_event (settled_melt melt_quote)
              ∷ s.events;
        })
  unfolding settle_both set_melt_state set_mint_state transaction update_melt_quote
      update_mint_quote
  settle_both-returns melt_quote mint_quote s t q e = ground arith

  check_settlement-returns :
      (melt_quote : MeltQuote) (mint_quote : MintQuote) (s t : Mint) (q : MeltQuote)
      → mint_quote.unit ≡ melt_quote.unit
      → check_settlement melt_quote mint_quote s ≡ (ok q, t)
      → (q ≡ settled_melt melt_quote) × IsSettled melt_quote mint_quote s t
  unfolding check_settlement
  check_settlement-returns melt_quote mint_quote s t q unit e =
      let (_, open_, e₁) =
        lift-returns
          (raise_if (melt_state_eq melt_quote.state MeltQuoteState.paid)
            (transaction_error "melt quote already paid"))
          _ s e in
      let (amount, _, e₂) =
        lift-returns (or_raise (backends.amount_msat melt_quote.request) value_error) _ s e₁ in
      let (_, _, e₃) =
        lift-returns (require (has_amount amount) (transaction_error "invoice has no amount.")) _ s
          e₂ in
      let (_, amounts, e₄) =
        lift-returns
          (require (eqb_ℤ mint_quote.amount melt_quote.amount)
            (transaction_error "amounts do not match"))
          _ s e₃ in
      let (_, requests, e₅) =
        lift-returns
          (require (melt_quote.request == mint_quote.request)
            (transaction_error "bolt11 requests do not match"))
          _ s e₄ in
      let (_, _, e₆) =
        lift-returns
          (require (mint_quote.method == melt_quote.method)
            (transaction_error "methods do not match"))
          _ s e₅ in
      let (_, unpaid, e₇) = lift-returns (already_paid mint_quote.state) _ s e₆ in
      let (made, both) = settle_both-returns melt_quote mint_quote s t q e₇ in
      (
        made,
        record {
          same_request = ground (arith, requests, eq_iff melt_quote.request mint_quote.request);
          same_amount = eqb_ℤ→eq mint_quote.amount melt_quote.amount (require-eq-ok _ _ amounts);
          same_unit = unit;
          was_unpaid = already_paid-unpaid mint_quote.state unpaid;
          not_paid = raise_if-eq-ok _ _ open_;
          both = both;
        },
      )

  -- Does the melt quote stay external: is there no mint quote with its request, or one in another unit?
  abbrev pub IsExternal : MeltQuote → Option MintQuote → Type 0
  IsExternal melt_quote none = Unit
  IsExternal melt_quote (some mint_quote) = (mint_quote.unit == melt_quote.unit) ≡ false

  pub settle_found-returns :
      (melt_quote : MeltQuote) (found : Option MintQuote) (s t : Mint) (q : MeltQuote)
      → settle_found melt_quote found s ≡ (ok q, t)
      → (IsExternal melt_quote found × (q ≡ melt_quote) × (t ≡ s))
        ⊎ ((mint_quote : MintQuote) × (found ≡ some mint_quote)
            × (q ≡ settled_melt melt_quote)
            × IsSettled melt_quote mint_quote s t)
  unfolding settle_found
  settle_found-returns melt_quote none s t q e =
      inl (tt, ok-inj (ap (λ r. r.0) (sym e)), ap (λ r. r.1) (sym e))
  settle_found-returns melt_quote (some m) s t q e = elim (Bool-cases (m.unit == melt_quote.unit)) [
    | inl same ↦
        let (made, settled) =
          check_settlement-returns melt_quote m s t q
            (ground (arith, same, eq_iff m.unit melt_quote.unit))
            (subst
              (λ b. (if b then check_settlement melt_quote m else pure melt_quote) s ≡ (ok q, t))
              same e) in
        inr (m, refl, made, settled)
    | inr other ↦
        let e' : ◌≡◌ {A = Result MeltQuote × Mint} (ok melt_quote, s) (ok q, t) =
          subst (λ b. (if b then check_settlement melt_quote m else pure melt_quote) s ≡ (ok q, t))
            other e in
        inl (other, ok-inj (ap (λ r. r.0) (sym e')), ap (λ r. r.1) (sym e'))
  ]

  -- When the internal settlement returns, the first mint quote with the request of the melt quote has been
  -- looked up. Either there is none, or it is in another unit: then the melt quote is handed back and
  -- nothing has changed. Or it has the amount and the unit of the melt quote, it was unpaid and the melt
  -- quote was not paid; and now both are paid, the fee paid is 0, one event each tells so, and nothing else
  -- has changed.
  pub melt_mint_settle_internally-returns :
      (melt_quote : MeltQuote) (s t : Mint) (q : MeltQuote)
      → melt_mint_settle_internally melt_quote s ≡ (ok q, t)
      → (found : Option MintQuote) × (get_mint_quote "" "" melt_quote.request s ≡ (ok found, s))
        × ((IsExternal melt_quote found × (q ≡ melt_quote) × (t ≡ s))
            ⊎ ((mint_quote : MintQuote) × (found ≡ some mint_quote)
                × (q ≡ settled_melt melt_quote)
                × IsSettled melt_quote mint_quote s t))
  unfolding melt_mint_settle_internally
  melt_mint_settle_internally-returns melt_quote s t q e =
      let (found, u, e₁, e₂) = >>=-returns (get_mint_quote "" "" melt_quote.request) _ s e in
      let same : u ≡ s = get_mint_quote-reads "" "" melt_quote.request s u found e₁ in
      (
        found,
        e₁ ∙ (λ i. (ok found, same i)),
        settle_found-returns melt_quote found s t q
            (subst (λ (x : Mint). settle_found melt_quote found x ≡ (ok q, t)) same e₂),
      )
