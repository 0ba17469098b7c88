-- ===== src/Mint/Write/MintQuotes.antt =====
-- The lock on a mint quote: `_set_mint_quote_pending` and `_unset_mint_quote_pending`.
use nutshell.Base.{
  true, sym, Bool, not, any_of, Bool-cases, String, false, Option, none, some, List, [], ◌∷◌, map,
  ◌==◌, ◌&&◌, ◌≡◌, refl, ap, subst, ◌∙◌, arith, find, eq_iff, eq_refl, inl, inr, Option-cases,
}
use nutshell.Core.Errors.{transaction_error}
use nutshell.Core.Quotes.{MintQuote, MintQuoteState, mint_state_eq, set_mint_state}
use nutshell.Core.Result.{Result, ok, err}
use nutshell.Mint.State.{Mint, Action, transaction, continue, settle, ◌>>=◌}
use nutshell.Mint.Chains.{transaction-returns}
use nutshell.Mint.Quotes.{get_mint_quote, update_mint_quote, updated_mint_row, clause}
use nutshell.Mint.Write.Quotes.{lock_mint_quote, set_mint_quote_pending}

-- The first row with the id.
abbrev pub row_of : String → List MintQuote → Option MintQuote
row_of id = find (λ q. q.quote == id)

abbrev pub updated : MintQuote → Option MintQuote → Option MintQuote
updated q none = none
updated q (some r) = some (updated_mint_row q r)

pub row_of-updated :
    (id : String) (q : MintQuote) (rows : List MintQuote)
    → row_of id (map (updated_mint_row q) rows) ≡ updated q (row_of id rows)
row_of-updated id q [] = refl
row_of-updated id q (r ∷ rows) = ground (arith, row_of-updated id q rows)

pub row_of-quote :
    (id : String) (rows : List MintQuote) (r : MintQuote) → row_of id rows ≡ some r → r.quote ≡ id
row_of-quote id [] r h = cc
row_of-quote id (q ∷ rows) r h = ground (arith, eq_iff q.quote id, row_of-quote id rows r)

-- Has a quote with the id a state other than issued?
abbrev pub is_open : String → List MintQuote → Bool
is_open id = any_of (λ q. q.quote == id && not (mint_state_eq q.state MintQuoteState.issued))

-- The UPDATE of an issued quote closes it.
is_open-issued :
    (id : String) (q : MintQuote) (rows : List MintQuote)
    → q.quote ≡ id
    → q.state ≡ MintQuoteState.issued
    → is_open id (map (updated_mint_row q) rows) ≡ false
is_open-issued id q [] e h = refl
is_open-issued id q (r ∷ rows) e h = ground (arith, e, h, is_open-issued id q rows e h)

-- The UPDATE of another quote does not open it.
is_open-updated :
    (id : String) (q : MintQuote) (rows : List MintQuote)
    → (q.quote == id) ≡ false
    → is_open id rows ≡ false
    → is_open id (map (updated_mint_row q) rows) ≡ false
is_open-updated id q [] e h = refl
is_open-updated id q (r ∷ rows) e h = ground (
  arith,
  eq_iff r.quote q.quote,
  eq_iff r.quote id,
  eq_iff q.quote id,
  is_open-updated id q rows e,
)

-- A row that is found and not issued has another id.
pub is_open-found :
    (id : String) (p : MintQuote → Bool) (rows : List MintQuote) (q : MintQuote)
    → is_open id rows ≡ false
    → find p rows ≡ some q
    → mint_state_eq q.state MintQuoteState.issued ≡ false
    → (q.quote == id) ≡ false
is_open-found id p [] q h e open_ = cc
is_open-found id p (r ∷ rows) q h e open_ = elim (Bool-cases (p r)) [
  | inl here ↦ ground (arith, here)
  | inr later ↦ is_open-found id p rows q (ground arith) (ground (arith, later)) open_
]

-- Is there a row with the id?
abbrev pub has_row : String → List MintQuote → Bool
has_row id = any_of (λ q. q.quote == id)

-- Is there a row with the id, and is every one issued?
abbrev pub is_issued : String → List MintQuote → Bool
is_issued id rows = has_row id rows && not (is_open id rows)

has_row-updated :
    (id : String) (q : MintQuote) (rows : List MintQuote)
    → has_row id (map (updated_mint_row q) rows) ≡ has_row id rows
has_row-updated id q [] = refl
has_row-updated id q (r ∷ rows) = ground (arith, has_row-updated id q rows)

pub is_issued-updated :
    (id : String) (q : MintQuote) (rows : List MintQuote)
    → (q.quote == id) ≡ false
    → is_issued id rows ≡ true
    → is_issued id (map (updated_mint_row q) rows) ≡ true
is_issued-updated id q rows other h =
    ground
      (arith, h, has_row-updated id q rows, is_open-updated id q rows other (ground (arith, h)))

-- The UPDATE of a row that is there, to issued.
pub is_issued-issued :
    (id : String) (q : MintQuote) (rows : List MintQuote)
    → q.quote ≡ id
    → q.state ≡ MintQuoteState.issued
    → has_row id rows ≡ true
    → is_issued id (map (updated_mint_row q) rows) ≡ true
is_issued-issued id q rows same issued h =
    ground (arith, h, has_row-updated id q rows, is_open-issued id q rows same issued)

-- The INSERT of a row whose id was not there.
pub is_issued-stored :
    (id : String) (q : MintQuote) (rows : List MintQuote)
    → has_row q.quote rows ≡ false
    → is_issued id rows ≡ true
    → is_issued id (q ∷ rows) ≡ true
is_issued-stored id q rows fresh h = elim (Bool-cases (q.quote == id)) [
  | inl same ↦
      let there : has_row q.quote rows ≡ true =
        subst (λ k. has_row k rows ≡ true) (sym ((eq_iff q.quote id).0 same)) (ground (arith, h)) in
      absurd (ground (arith, there, fresh))
  | inr other ↦ ground (arith, other, h)
]

pub has_row-row_of :
    (id : String) (rows : List MintQuote) (q : MintQuote)
    → row_of id rows ≡ some q
    → has_row id rows ≡ true
has_row-row_of id [] q h = cc
has_row-row_of id (r ∷ rows) q h = ground (arith, h, has_row-row_of id rows q)

-- The row that is found is issued too.
pub is_issued-row_of :
    (id : String) (rows : List MintQuote) (q : MintQuote)
    → is_issued id rows ≡ true
    → row_of id rows ≡ some q
    → mint_state_eq q.state MintQuoteState.issued ≡ true
is_issued-row_of id rows q h found =
    elim (Bool-cases (mint_state_eq q.state MintQuoteState.issued)) [
      | inl issued ↦ issued
      | inr open_ ↦
          let other =
            is_open-found id (λ (r : MintQuote). r.quote == id) rows q (ground (arith, h)) found
              open_ in
          absurd (ground (arith, other, eq_iff q.quote id, row_of-quote id rows q found))
    ]

-- The WHERE of a SELECT by the id alone.
where_id-row_of :
    (id : String) (rows : List MintQuote)
    → (id == "") ≡ false
    → find (λ q. clause id q.quote && clause "" q.checking_id && clause "" q.request) rows
      ≡ row_of id rows
where_id-row_of id [] h = refl
where_id-row_of id (q ∷ rows) h = ground (arith, eq_refl "", where_id-row_of id rows h)

pub get_mint_quote-row_of :
    (id : String) (s : Mint)
    → (id == "") ≡ false
    → get_mint_quote id "" "" s ≡ (ok (row_of id s.db.mint_quotes), s)
unfolding get_mint_quote
get_mint_quote-row_of id s h = ground (arith, eq_refl "", where_id-row_of id s.db.mint_quotes h)

-- What the lock finds and leaves.
pub record IsLocked (id : String) (before after : Mint) (q : MintQuote) : Type 0 where
  pub row : MintQuote
  pub was_paid : row.state ≡ MintQuoteState.paid
  pub found : row_of id before.db.mint_quotes ≡ some row
  pub returned : q ≡ record row { state = MintQuoteState.pending }
  pub stored : row_of id after.db.mint_quotes ≡ some q
  pub others : after ≡ record before {
    db = record before.db { mint_quotes = map (updated_mint_row q) before.db.mint_quotes };
  }

-- Reading a quote by its id in front of a chain.
pub after_get_mint_quote :
    {A : Type 0} (id : String) (k : Option MintQuote → Action A) (s : Mint) {x : Result A × Mint}
    → (id == "") ≡ false
    → (get_mint_quote id "" "" >>= k) s ≡ x
    → k (row_of id s.db.mint_quotes) s ≡ x
after_get_mint_quote id k s {x} named e =
    subst (λ (y : Result (Option MintQuote) × Mint). continue k y.0 y.1 ≡ x)
      (get_mint_quote-row_of id s named) e

lock_mint_quote-IsLocked :
    (id : String) (s t : Mint) (q : MintQuote)
    → lock_mint_quote (row_of id s.db.mint_quotes) s ≡ (ok q, t)
    → IsLocked id s t q
unfolding lock_mint_quote set_mint_state update_mint_quote
lock_mint_quote-IsLocked id s t q e = elim (Option-cases (row_of id s.db.mint_quotes)) [
  | inl missing ↦ absurd (ground arith)
  | inr (r, found) ↦
      let now : (r.state ≡ MintQuoteState.paid)
          × (q ≡ record r { state = MintQuoteState.pending })
          × (t ≡ record s {
            db = record s.db { mint_quotes = map (updated_mint_row q) s.db.mint_quotes };
          }) =
        ground arith in
      let (was_paid, returned, others) = now in
      record {
        row = r;
        was_paid = was_paid;
        found = found;
        returned = returned;
        stored = ground (
          arith,
          row_of-updated id q s.db.mint_quotes,
          row_of-quote id s.db.mint_quotes r,
          eq_refl id,
        );
        others = others;
      }
]

-- When a mint quote with an id that is not empty is locked, its row was paid; the row in the table
-- is now the one returned, which is pending; no other table changes, and no event is sent.
pub set_mint_quote_pending-IsLocked :
    (id : String) (s t : Mint) (q : MintQuote)
    → (id == "") ≡ false
    → set_mint_quote_pending id s ≡ (ok q, t)
    → IsLocked id s t q
unfolding set_mint_quote_pending
set_mint_quote_pending-IsLocked id s t q named e = lock_mint_quote-IsLocked id s t q (
    after_get_mint_quote id lock_mint_quote s named
      (transaction-returns (get_mint_quote id "" "" >>= lock_mint_quote) s q t e))

lock_mint_quote-locked :
    (q : MintQuote) (s : Mint)
    → q.state ≡ MintQuoteState.pending
    → lock_mint_quote (some q) s ≡ (err (transaction_error "Mint quote already pending."), s)
unfolding lock_mint_quote
lock_mint_quote-locked q s h = ground arith

-- A mint quote, with an id that is not empty, that one request has locked cannot be locked by
-- another in the state that the first leaves: the second call raises "Mint quote already pending."
-- and leaves everything as it is.
pub set_mint_quote_pending_excludes :
    (id : String) (s t : Mint) (q : MintQuote)
    → (id == "") ≡ false
    → set_mint_quote_pending id s ≡ (ok q, t)
    → set_mint_quote_pending id t ≡ (err (transaction_error "Mint quote already pending."), t)
unfolding set_mint_quote_pending transaction
set_mint_quote_pending_excludes id s t q named e =
    let locked = set_mint_quote_pending-IsLocked id s t q named e in
    let step : lock_mint_quote (row_of id t.db.mint_quotes) t
        ≡ (err (transaction_error "Mint quote already pending."), t) =
      rw locked.stored
        (lock_mint_quote-locked q t (ap (λ (x : MintQuote). x.state) locked.returned)) in
    ap (λ (x : Result MintQuote × Mint). (x.0, settle t.db x.0 x.1))
      (ap (λ (y : Result (Option MintQuote) × Mint). continue lock_mint_quote y.0 y.1)
          (get_mint_quote-row_of id t named)
        ∙ step)
