-- ===== src/Mint/Ledger/Refreshed.antt =====
-- `get_mint_quote` of cashu/mint/ledger.py: when a quote becomes paid.
use nutshell.Base.{
  ◌/◌, String, Bool, true, false, none, some, ◌∷◌, map, ◌==◌, ◌≡◌, ◌⊎◌, ap, sym, subst, arith, inl,
  inr, eq_refl, Option-cases, Bool-cases,
}
use nutshell.Core.Errors.{exception, cashu_error}
use nutshell.Core.Quotes.{MintQuote, MintQuoteState, mint_state_eq, set_mint_state}
use nutshell.Core.Result.{Result, ok, or_raise, raise_if, or_raise-eq-ok}
use nutshell.Mint.State.{Mint, ◌>>=◌, mint_quote_event}
use nutshell.Mint.Chains.{lift-returns, transaction-returns, err-ne-ok}
use nutshell.Mint.Quotes.{get_mint_quote, update_mint_quote, updated_mint_row}
use nutshell.Mint.Verification.{Env}
use nutshell.Mint.Verification.Quotes.{Backends, verify_and_get_unit_method}
use nutshell.Mint.Write.MintQuotes.{row_of, row_of-updated, row_of-quote, after_get_mint_quote}
use nutshell.Mint.Ledger.Issued.{ok-inj}
use nutshell.Mint.Ledger.Minting.{
  mark_paid, check_invoice, check_mint_quote, refresh_mint_quote, when_settled, when_unpaid,
}

module _ (env : Env) (backends : Backends) where
  -- The row that was unpaid is paid now, in the table and in what is returned.
  pub record IsMarked (id : String) (row quote : MintQuote) (before after : Mint) : Type 0 where
    pub was_unpaid : row.state ≡ MintQuoteState.unpaid
    pub returned :
        quote
        ≡ record row { state = MintQuoteState.paid; paid_time = some (env.script.now / 1000000) }
    pub stored : row_of id after.db.mint_quotes ≡ some quote
    pub others : after ≡ record before {
      db = record before.db { mint_quotes = map (updated_mint_row quote) before.db.mint_quotes };
      events = mint_quote_event quote ∷ before.events;
    }

  mark_paid-IsMarked :
      (id : String) (row q : MintQuote) (s t : Mint)
      → row_of id s.db.mint_quotes ≡ some row
      → row.state ≡ MintQuoteState.unpaid
      → mark_paid env backends (some row) s ≡ (ok q, t)
      → IsMarked id row q s t
  unfolding mark_paid set_mint_state update_mint_quote
  mark_paid-IsMarked id row q s t found unpaid e =
      let now : (q ≡ record row {
        state = MintQuoteState.paid;
        paid_time = some (env.script.now / 1000000);
      })
          × (t ≡ record s {
            db = record s.db { mint_quotes = map (updated_mint_row q) s.db.mint_quotes };
            events = mint_quote_event q ∷ s.events;
          }) =
        ground arith in
      let (returned, others) = now in
      record {
        was_unpaid = unpaid;
        returned = returned;
        stored = ground (
          arith,
          row_of-updated id q s.db.mint_quotes,
          row_of-quote id s.db.mint_quotes row,
          eq_refl id,
        );
        others = others;
      }

  after_answer :
      (id : String) (row q : MintQuote) (s t : Mint) (settled : Bool)
      → (id == "") ≡ false
      → row_of id s.db.mint_quotes ≡ some row
      → row.state ≡ MintQuoteState.unpaid
      → backends.settled row.checking_id ≡ some settled
      → when_settled env backends id row settled s ≡ (ok q, t)
      → ((q ≡ row) × (t ≡ s) × (backends.settled row.checking_id ≡ some false))
        ⊎ ((backends.settled row.checking_id ≡ some true) × IsMarked id row q s t)
  after_answer id row q s t false named found unpaid answer e =
      inl (ok-inj (ap (λ r. r.0) (sym e)), ap (λ r. r.1) (sym e), answer)
  after_answer id row q s t true named found unpaid answer e = inr (
    answer,
    mark_paid-IsMarked id row q s t found unpaid (
        subst (λ o. mark_paid env backends o s ≡ (ok q, t)) found
          (after_get_mint_quote id (mark_paid env backends) s named
            (transaction-returns (get_mint_quote id "" "" >>= mark_paid env backends) s q t e))),
  )

  check_invoice-returns :
      (id : String) (row q : MintQuote) (s t : Mint)
      → (id == "") ≡ false
      → row_of id s.db.mint_quotes ≡ some row
      → row.state ≡ MintQuoteState.unpaid
      → check_invoice env backends id row s ≡ (ok q, t)
      → ((q ≡ row) × (t ≡ s) × (backends.settled row.checking_id ≡ some false))
        ⊎ ((backends.settled row.checking_id ≡ some true) × IsMarked id row q s t)
  unfolding check_invoice
  check_invoice-returns id row q s t named found unpaid e =
      let (_, _, e₁) =
        lift-returns (raise_if (row.checking_id == "") (cashu_error "quote has no checking id")) _ s
          e in
      let (settled, asked, e₂) =
        lift-returns (or_raise (backends.settled row.checking_id) (exception "backend")) _ s e₁ in
      let answer = or_raise-eq-ok _ _ asked in
      after_answer id row q s t settled named found unpaid answer e₂

  check_mint_quote-none :
      (id : String) (q : MintQuote) (s t : Mint)
      → check_mint_quote env backends id none s ≡ (ok q, t)
      → ⊥
  unfolding check_mint_quote
  check_mint_quote-none id q s t e = err-ne-ok _ q (ap (λ r. r.0) e)

  check_mint_quote-returns :
      (id : String) (row q : MintQuote) (s t : Mint)
      → (id == "") ≡ false
      → row_of id s.db.mint_quotes ≡ some row
      → check_mint_quote env backends id (some row) s ≡ (ok q, t)
      → ((q ≡ row) × (t ≡ s))
        ⊎ ((backends.settled row.checking_id ≡ some true) × IsMarked id row q s t)
  unfolding check_mint_quote
  check_mint_quote-returns id row q s t named found e =
      let (_, _, e₁) =
        lift-returns (verify_and_get_unit_method env backends row.unit row.method) _ s e in
      elim (Bool-cases (mint_state_eq row.state MintQuoteState.unpaid)) [
        | inl unpaid ↦
            elim (check_invoice-returns id row q s t named found (ground (arith, unpaid))
              (subst (λ b. when_unpaid env backends id row b s ≡ (ok q, t)) unpaid e₁)) [
                | inl (same, still, _) ↦ inl (same, still)
                | inr marked ↦ inr marked
              ]
        | inr other ↦
            let kept : ◌≡◌ {A = Result MintQuote × Mint} (ok row, s) (ok q, t) =
              subst (λ b. when_unpaid env backends id row b s ≡ (ok q, t)) other e₁ in
            inl (ok-inj (ap (λ r. r.0) (sym kept)), ap (λ r. r.1) (sym kept))
      ]

  -- When `get_mint_quote` returns for an id that is not empty, the quote is in the table. Either it is
  -- returned as it is and nothing changes, or it was unpaid and the backend says that its invoice is
  -- settled: then it is paid now, in the table and in what is returned, one event tells so, and nothing
  -- else changes.
  pub refresh_mint_quote-returns :
      (id : String) (q : MintQuote) (s t : Mint)
      → (id == "") ≡ false
      → refresh_mint_quote env backends id s ≡ (ok q, t)
      → (row : MintQuote) × (row_of id s.db.mint_quotes ≡ some row)
        × (((q ≡ row) × (t ≡ s))
            ⊎ ((backends.settled row.checking_id ≡ some true) × IsMarked id row q s t))
  unfolding refresh_mint_quote
  refresh_mint_quote-returns id q s t named e =
      let read = after_get_mint_quote id (check_mint_quote env backends id) s named e in
      elim (Option-cases (row_of id s.db.mint_quotes)) [
        | inl missing ↦ absurd (
            check_mint_quote-none id q s t
              (subst (λ o. check_mint_quote env backends id o s ≡ (ok q, t)) missing read))
        | inr (row, found) ↦ (
          row,
          found,
          check_mint_quote-returns id row q s t named found
              (subst (λ o. check_mint_quote env backends id o s ≡ (ok q, t)) found read),
        )
      ]
