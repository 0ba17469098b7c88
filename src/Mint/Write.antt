-- ===== src/Mint/Write.antt =====
-- `DbWriteHelper` of cashu/mint/db/write.py. Each method that opens a connection is one transaction;
-- the row locks keep the transactions apart, so that a transaction runs on the tables as it finds them.
pub mod Quotes
pub mod Loops
pub mod Pending
pub mod MintQuotes
pub mod MeltQuotes
use nutshell.Base.{
  ℤ, pos, ◌-ℤ◌, String, Bool, true, false, ◌||◌, not, Option, none, some, List, [], ◌∷◌, ◌==◌,
  is_empty, any_of, if◌then◌else◌,
}
use nutshell.Core.Errors.{proofs_are_pending, transaction_error}
use nutshell.Core.Proofs.{Proof, ProofSpentState}
use nutshell.Core.Result.{Result, require, item}
use nutshell.Mint.State.{
  Db, Mint, Event, proof_event, ProofState, Keysets, Action, lift, pure, gets, submit, for_each,
  check, transaction, ◌>>=◌, ◌>>◌,
}
use nutshell.Mint.Crud.{
  get_proofs_pending, set_proof_pending, unset_proof_pending, bump_keyset_balance,
}
use nutshell.Mint.Read.{proof_Ys, verify_proofs_spendable}

abbrev pub negate : ℤ → ℤ
negate a = pos 0 -ℤ a

abbrev pub state_event : ProofSpentState → Proof → Event
state_event state p = proof_event (record { Y = p.Y; state = state; witness = none })

unfoldable pub validate_proofs_pending : List Proof → Db → Result (Unit {0})
validate_proofs_pending proofs db =
    require (is_empty (get_proofs_pending (proof_Ys proofs) db)) proofs_are_pending

-- `if not spent:` tell the subscribers that the proofs can be spent again.
abbrev pub announce_unspent : Bool → List Proof → Action (Unit {0})
announce_unspent true proofs = pure tt
announce_unspent false proofs =
    for_each (λ p. submit (state_event ProofSpentState.unspent p)) proofs

module _ (keysets : Keysets) where
  -- The body of the loop over the proofs.
  unfoldable pub set_pending_step : Option String → Proof → Action (Unit {0})
  set_pending_step quote_id p = do
    set_proof_pending p quote_id
    keyset ← lift (item p.id keysets)
    bump_keyset_balance keyset (negate p.amount)

  -- What stands under the lock on `proofs_pending`.
  unfoldable pub set_pending_body : List Proof → Option String → Action (Unit {0})
  set_pending_body proofs quote_id = do
    check (verify_proofs_spendable proofs)
    check (validate_proofs_pending proofs)
    for_each (set_pending_step quote_id) proofs

  unfoldable pub verify_spent_proofs_and_set_pending :
      List Proof → Option String → Action (Unit {0})
  verify_spent_proofs_and_set_pending proofs quote_id = do
    transaction (set_pending_body proofs quote_id)
    for_each (λ p. submit (state_event ProofSpentState.pending p)) proofs

  unfoldable pub unset_pending_step : Proof → Action (Unit {0})
  unset_pending_step p = do
    unset_proof_pending p
    keyset ← lift (item p.id keysets)
    bump_keyset_balance keyset p.amount

  -- `_unset_proofs_pending` on the connection of its caller.
  unfoldable pub unset_proofs_pending_in : List Proof → Bool → Action (Unit {0})
  unset_proofs_pending_in proofs spent = do
    for_each unset_pending_step proofs
    announce_unspent spent proofs

  -- `_unset_proofs_pending` on a connection of its own.
  unfoldable pub unset_proofs_pending : List Proof → Bool → Action (Unit {0})
  unset_proofs_pending proofs spent = do
    transaction (for_each unset_pending_step proofs)
    announce_unspent spent proofs
