-- ===== src/Tests/Quotes.antt =====
-- Locks on the quotes of the small mint, and the answers about its proofs.
use nutshell.Base.{none, [], ◌∷◌, map, ◌≡◌, refl}
use nutshell.Core.Errors.{transaction_error}
use nutshell.Core.Quotes.{MeltQuote, MintQuoteState, MeltQuoteState, set_mint_state, set_melt_state}
use nutshell.Core.Quotes.Life.{Life, unpaid_becomes_paid}
use nutshell.Core.Result.{ok, err}
use nutshell.Mint.State.{Db, Mint, transaction}
use nutshell.Mint.Quotes.{
  get_mint_quote, update_mint_quote, update_melt_quote, get_melt_quotes_by_checking_id,
}
use nutshell.Mint.Read.{get_proofs_states}
use nutshell.Mint.Read.States.{Answer, answer, recorded, get_proofs_states-recorded}
use nutshell.Mint.Write.Quotes.{
  lock_mint_quote, set_mint_quote_pending, set_melt_quote_body, set_melt_quote_pending,
  store_new_melt_quote,
}
use nutshell.Mint.Write.MintQuotes.{
  IsLocked, set_mint_quote_pending-IsLocked, set_mint_quote_pending_excludes,
}
use nutshell.Mint.Write.MeltQuotes.{
  IsMeltLocked, set_melt_quote_pending-IsMeltLocked, set_melt_quote_pending_excludes,
}
use nutshell.Tests.World.{four, two, start, mint_quote, melt_quote}

abbrev locked : Mint
locked = (set_mint_quote_pending "q" start).1

lock_runs : set_mint_quote_pending "q" start ≡ (ok (mint_quote MintQuoteState.pending), locked)
unfolding set_mint_quote_pending lock_mint_quote get_mint_quote set_mint_state update_mint_quote
    transaction
lock_runs = refl

set_mint_quote_pending-IsLocked_example :
    IsLocked "q" start locked (mint_quote MintQuoteState.pending)
set_mint_quote_pending-IsLocked_example =
    set_mint_quote_pending-IsLocked "q" start locked (mint_quote MintQuoteState.pending) refl
      lock_runs

set_mint_quote_pending_excludes_example :
    set_mint_quote_pending "q" locked
    ≡ (err (transaction_error "Mint quote already pending."), locked)
set_mint_quote_pending_excludes_example =
    set_mint_quote_pending_excludes "q" start locked (mint_quote MintQuoteState.pending) refl
      lock_runs

abbrev melt_locked : Mint
melt_locked = (set_melt_quote_pending (melt_quote MeltQuoteState.unpaid) start).1

melt_lock_runs :
    set_melt_quote_pending (melt_quote MeltQuoteState.unpaid) start
    ≡ (ok (melt_quote MeltQuoteState.pending), melt_locked)
unfolding set_melt_quote_pending set_melt_quote_body get_melt_quotes_by_checking_id set_melt_state
    update_melt_quote transaction
melt_lock_runs = refl

set_melt_quote_pending-IsMeltLocked_example :
    IsMeltLocked
      (melt_quote MeltQuoteState.unpaid)
      (melt_quote MeltQuoteState.pending)
      start
      melt_locked
set_melt_quote_pending-IsMeltLocked_example =
    set_melt_quote_pending-IsMeltLocked (melt_quote MeltQuoteState.unpaid)
      (melt_quote MeltQuoteState.pending) start melt_locked melt_lock_runs

-- Another quote for the same payment.
abbrev rival : MeltQuote
rival = record (melt_quote MeltQuoteState.unpaid) { quote = "n" }

set_melt_quote_pending_excludes_example :
    (set_melt_quote_pending rival melt_locked
      ≡ (err (transaction_error "Melt quote already paid or pending."), melt_locked))
    × (store_new_melt_quote rival melt_locked
        ≡ (err (transaction_error "Melt quote already paid or pending."), melt_locked))
set_melt_quote_pending_excludes_example =
    set_melt_quote_pending_excludes (melt_quote MeltQuoteState.unpaid)
      (melt_quote MeltQuoteState.pending) rival start melt_locked refl melt_lock_runs refl

-- One proof is spent, and one is pending.
abbrev tables : Db
tables = record start.db {
  proofs_used = record { proof = four; melt_quote = none } ∷ [];
  proofs_pending = record { proof = two; melt_quote = none } ∷ [];
}

get_proofs_states-recorded_example :
    map answer (get_proofs_states ("Y:c" ∷ "Y:a" ∷ "Y:z" ∷ []) tables)
    ≡ map {B = Answer} (λ y. (y, recorded tables y)) ("Y:c" ∷ "Y:a" ∷ "Y:z" ∷ [])
get_proofs_states-recorded_example = get_proofs_states-recorded ("Y:c" ∷ "Y:a" ∷ "Y:z" ∷ []) tables

from_paid : Life (mint_quote MintQuoteState.paid) (mint_quote MintQuoteState.issued)
unfolding set_mint_state
from_paid =
    Life.assign _ (mint_quote MintQuoteState.issued) _ MintQuoteState.issued refl (Life.same _)

from_unpaid : Life (mint_quote MintQuoteState.unpaid) (mint_quote MintQuoteState.issued)
unfolding set_mint_state
from_unpaid = Life.assign _ (mint_quote MintQuoteState.paid) _ MintQuoteState.paid refl from_paid

unpaid_becomes_paid_example :
    Life (mint_quote MintQuoteState.paid) (mint_quote MintQuoteState.issued)
unpaid_becomes_paid_example =
    unpaid_becomes_paid (mint_quote MintQuoteState.unpaid) (mint_quote MintQuoteState.issued)
      from_unpaid refl refl
