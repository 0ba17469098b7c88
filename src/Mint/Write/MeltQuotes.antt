-- ===== src/Mint/Write/MeltQuotes.antt =====
-- The lock on a melt quote: `_set_melt_quote_pending` and `_store_melt_quote`, by the checking id.
use nutshell.Base.{
  String, true, false, List, [], ◌∷◌, map, ◌==◌, ◌≡◌, refl, ap, sym, ◌∙◌, arith, select, any_of,
  is_empty, eq_refl,
}
use nutshell.Core.Errors.{transaction_error}
use nutshell.Core.Quotes.{MeltQuote, MeltQuoteState, set_melt_state}
use nutshell.Core.Result.{ok, err, raise_if, raise_if-eq-ok}
use nutshell.Mint.State.{Mint, transaction, melt_quote_event}
use nutshell.Mint.Chains.{transaction-returns, lift-returns, >>=-returns}
use nutshell.Mint.Quotes.{update_melt_quote, updated_melt_row, get_melt_quotes_by_checking_id}
use nutshell.Mint.Write.Quotes.{
  pending_or_paid, is_taken, set_melt_quote_body, set_melt_quote_pending, store_new_melt_quote,
}

abbrev with_id : String → List MeltQuote → List MeltQuote
with_id c = select (λ q. q.checking_id == c)

-- The quote has a row in the table.
abbrev pub IsStored : MeltQuote → Mint → Type 0
IsStored q s = any_of (λ r. r.quote == q.quote) s.db.melt_quotes ≡ true

taken-updated :
    (q : MeltQuote) (rows : List MeltQuote)
    → q.state ≡ MeltQuoteState.pending
    → any_of (λ r. r.quote == q.quote) rows ≡ true
    → any_of pending_or_paid (with_id q.checking_id (map (updated_melt_row q) rows)) ≡ true
taken-updated q [] h stored = cc
taken-updated q (r ∷ rows) h stored = ground (arith, eq_refl q.checking_id, taken-updated q rows h)

any_of-nonempty :
    (rows : List MeltQuote) → any_of pending_or_paid rows ≡ true → is_empty rows ≡ false
any_of-nonempty [] h = cc
any_of-nonempty (r ∷ rows) h = refl

-- What the lock leaves when it returns.
pub record IsMeltLocked (q q' : MeltQuote) (before after : Mint) : Type 0 where
  pub returned : q' ≡ record q { state = MeltQuoteState.pending }
  pub named : (q.checking_id == "") ≡ false
  pub was_free : is_taken q.checking_id before.db ≡ false
  pub others : after ≡ record before {
    db = record before.db { melt_quotes = map (updated_melt_row q') before.db.melt_quotes };
    events = melt_quote_event q' ∷ before.events;
  }

set_melt_quote_body-returns :
    (q q' : MeltQuote) (s t : Mint)
    → set_melt_quote_body q s ≡ (ok q', t)
    → (q' ≡ record q { state = MeltQuoteState.pending })
      × (is_taken q.checking_id s.db ≡ false)
      × (t ≡ record s {
        db = record s.db { melt_quotes = map (updated_melt_row q') s.db.melt_quotes };
      })
unfolding set_melt_quote_body set_melt_state update_melt_quote
set_melt_quote_body-returns q q' s t e = ground arith

-- When a melt quote is locked, its checking id is not empty and no quote with that checking id was
-- pending or paid; the quote returned is the one given, as pending, and rows with its id are updated
-- to it; one event tells so, and nothing else changes.
pub set_melt_quote_pending-IsMeltLocked :
    (q q' : MeltQuote) (s t : Mint)
    → set_melt_quote_pending q s ≡ (ok q', t)
    → IsMeltLocked q q' s t
unfolding set_melt_quote_pending
set_melt_quote_pending-IsMeltLocked q q' s t e =
    let (_, passed, e₁) =
      lift-returns
        (raise_if (q.checking_id == "") (transaction_error "Melt quote doesn't have checking ID."))
        _ s e in
    let (p, u, e₂, e₃) = >>=-returns (transaction (set_melt_quote_body q)) _ s e₁ in
    let (made, free, same) =
      set_melt_quote_body-returns q p s u (transaction-returns (set_melt_quote_body q) s p u e₂) in
    let returned : p ≡ q' = ground arith in
    record {
      returned = sym returned ∙ made;
      named = raise_if-eq-ok _ _ passed;
      was_free = free;
      others = ground (arith, e₃, same, returned);
    }

set_melt_quote_body-taken :
    (r : MeltQuote) (t : Mint)
    → is_taken r.checking_id t.db ≡ true
    → set_melt_quote_body r t ≡ (err (transaction_error "Melt quote already paid or pending."), t)
unfolding set_melt_quote_body
set_melt_quote_body-taken r t h =
    ground (arith, any_of-nonempty (get_melt_quotes_by_checking_id r.checking_id t.db))

-- With a checking id that is taken, no quote can be locked and none can be stored.
pub taken-refused :
    (r : MeltQuote) (t : Mint)
    → (r.checking_id == "") ≡ false
    → is_taken r.checking_id t.db ≡ true
    → (set_melt_quote_pending r t
        ≡ (err (transaction_error "Melt quote already paid or pending."), t))
      × (store_new_melt_quote r t
          ≡ (err (transaction_error "Melt quote already paid or pending."), t))
unfolding set_melt_quote_pending store_new_melt_quote transaction
taken-refused r t named h = (rw (named, set_melt_quote_body-taken r t h) refl, rw h refl)

-- Once a melt quote that has a row in the table is locked, no quote with the same checking id can be
-- locked or stored in the state that this leaves: the call raises "Melt quote already paid or
-- pending." and leaves everything as it is.
pub set_melt_quote_pending_excludes :
    (q q' r : MeltQuote) (s t : Mint)
    → IsStored q s
    → set_melt_quote_pending q s ≡ (ok q', t)
    → r.checking_id ≡ q.checking_id
    → (set_melt_quote_pending r t
        ≡ (err (transaction_error "Melt quote already paid or pending."), t))
      × (store_new_melt_quote r t
          ≡ (err (transaction_error "Melt quote already paid or pending."), t))
unfolding get_melt_quotes_by_checking_id
set_melt_quote_pending_excludes q q' r s t stored e same =
    let locked = set_melt_quote_pending-IsMeltLocked q q' s t e in
    taken-refused r t (rw same locked.named) (
      ground (
        arith,
        locked.returned,
        locked.others,
        same,
        taken-updated q' s.db.melt_quotes (ap (λ (x : MeltQuote). x.state) locked.returned),
      ))
