-- ===== src/Mint/Melt/Unlock.antt =====
-- Taking the lock off a melt quote: `_unset_melt_quote_pending` of cashu/mint/db/write.py, on a quote
-- that is locked.
use nutshell.Base.{
  String, Bool, true, false, ◌&&◌, not, Option, none, some, List, [], ◌∷◌, ◌==◌, ◌≡◌, refl, arith,
  map, find, select, eq_refl, is_some,
}
use nutshell.Core.Quotes.{MeltQuote, MeltQuoteState, set_melt_state}
use nutshell.Core.Result.{ok}
use nutshell.Mint.State.{Mint, Promise, transaction, melt_quote_event}
use nutshell.Mint.Crud.{get_blind_signatures_melt_id}
use nutshell.Mint.Quotes.{get_melt_quote, update_melt_quote, updated_melt_row, clause}
use nutshell.Mint.Write.Quotes.{unset_melt_quote_pending, unset_melt_quote_body}

-- The first row with the id.
abbrev pub melt_row : String → List MeltQuote → Option MeltQuote
melt_row id = find (λ q. q.quote == id)

-- The state in the first row with the id.
abbrev pub state_of : Option MeltQuote → Option MeltQuoteState
state_of none = none
state_of (some q) = some q.state

where_id-melt_row :
    (id : String) (rows : List MeltQuote)
    → (id == "") ≡ false
    → find (λ q. clause id q.quote && clause "" q.checking_id && clause "" q.request) rows
      ≡ melt_row id rows
where_id-melt_row id [] h = refl
where_id-melt_row id (q ∷ rows) h = ground (arith, eq_refl "", where_id-melt_row id rows h)

-- Updating the rows of a quote that has one gives it the new state.
pub state_of-updated :
    (q : MeltQuote) (rows : List MeltQuote)
    → is_some (melt_row q.quote rows) ≡ true
    → state_of (melt_row q.quote (map (updated_melt_row q) rows)) ≡ some q.state
state_of-updated q [] h = absurd (ground arith)
state_of-updated q (r ∷ rows) h = ground (arith, state_of-updated q rows)

-- Nothing is left of what a DELETE deletes.
pub message_left :
    (f : Promise → Bool) (rows : List Promise) → select f (select (λ p. not (f p)) rows) ≡ []
message_left f [] = refl
message_left f (r ∷ rows) = ground (arith, message_left f rows)

-- The quote as it is after the lock is taken off it.
abbrev pub unlocked : MeltQuote → MeltQuote
unlocked q = record q { state = MeltQuoteState.unpaid }

pub unset_melt_quote_pending-ok :
    (q : MeltQuote) (s : Mint)
    → (q.quote == "") ≡ false
    → q.state ≡ MeltQuoteState.pending
    → state_of (melt_row q.quote s.db.melt_quotes) ≡ some MeltQuoteState.pending
    → (t : Mint) × (unset_melt_quote_pending q MeltQuoteState.unpaid s ≡ (ok (unlocked q), t))
      × (t.db ≡ record s.db { melt_quotes = map (updated_melt_row (unlocked q)) s.db.melt_quotes })
unfolding unset_melt_quote_pending unset_melt_quote_body set_melt_state update_melt_quote
    get_melt_quote get_blind_signatures_melt_id transaction
unset_melt_quote_pending-ok q s named waits stored =
    let t : Mint = record s {
      db = record s.db { melt_quotes = map (updated_melt_row (unlocked q)) s.db.melt_quotes };
      events = melt_quote_event (unlocked q) ∷ s.events;
    } in
    (t, ground (arith, eq_refl "", where_id-melt_row q.quote s.db.melt_quotes named), refl)
