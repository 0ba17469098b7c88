-- ===== src/Mint/Read/States.antt =====
-- `get_proofs_states`: the answer to a wallet that asks for the states of its proofs.
use nutshell.Base.{
  String, true, Option, none, some, List, [], ◌∷◌, map, ◌≡◌, refl, ◌∙◌, arith, select, is_some,
  contains, eq_iff, eq_refl, All, if◌then◌else◌,
}
use nutshell.Core.Proofs.{Proof, ProofSpentState}
use nutshell.Mint.State.{Db, ProofRow, ProofState}
use nutshell.Mint.Crud.{Ys, read_proof, get_proofs_used, get_proofs_pending}
use nutshell.Mint.Read.{
  at_Y, state_of, get_proofs_states, get_proofs_spent_dict, get_proofs_pending_dict,
}

-- What the two tables say of a Y.
abbrev pub recorded : Db → String → ProofSpentState
recorded db y =
    if contains y (Ys db.proofs_used)
    then ProofSpentState.spent
    else if contains y (Ys db.proofs_pending)
    then ProofSpentState.pending
    else ProofSpentState.unspent

at_Y-with_Y :
    (y : String) (ys : List String) (rows : List ProofRow)
    → contains y ys ≡ true
    → is_some (at_Y y (map read_proof (select (λ r. contains r.proof.Y ys) rows)))
      ≡ contains y (Ys rows)
at_Y-with_Y y ys [] h = refl
at_Y-with_Y y ys (r ∷ rows) h =
    ground (arith, eq_iff y r.proof.Y, eq_iff r.proof.Y y, at_Y-with_Y y ys rows h)

state_of-state :
    (y : String) (p q : Option Proof)
    → (state_of y p q).state ≡ (
        if is_some p
        then ProofSpentState.spent
        else if is_some q
        then ProofSpentState.pending
        else ProofSpentState.unspent)
state_of-state y none none = refl
state_of-state y none (some q) = refl
state_of-state y (some p) q = refl

contains-All :
    (zs ys : List String)
    → ((x : String) → contains x zs ≡ true → contains x ys ≡ true)
    → All (λ y. contains y ys ≡ true) zs
contains-All [] ys h = tt
contains-All (z ∷ zs) ys h =
    (h z (ground (arith, eq_refl z)), contains-All zs ys (λ x e. h x (ground arith)))

-- A Y with the state that is given for it.
abbrev pub Answer : Type 0
Answer = String × ProofSpentState

abbrev pub answer : ProofState → Answer
answer r = (r.Y, r.state)

state_of-Y : (y : String) (p q : Option Proof) → (state_of y p q).Y ≡ y
state_of-Y y none none = refl
state_of-Y y none (some q) = refl
state_of-Y y (some p) q = refl

state_of-recorded :
    (y : String) (ys : List String) (db : Db)
    → contains y ys ≡ true
    → (state_of y
        (at_Y y (get_proofs_spent_dict ys db))
        (at_Y y (get_proofs_pending_dict ys db))).state
      ≡ recorded db y
unfolding get_proofs_spent_dict get_proofs_pending_dict get_proofs_used get_proofs_pending
state_of-recorded y ys db h =
    state_of-state y (at_Y y (get_proofs_spent_dict ys db)) (at_Y y (get_proofs_pending_dict ys db))
    ∙ rw (at_Y-with_Y y ys db.proofs_used h, at_Y-with_Y y ys db.proofs_pending h) refl

answers :
    (zs ys : List String) (db : Db)
    → All (λ y. contains y ys ≡ true) zs
    → map answer (
        map
          (λ y.
            state_of y
              (at_Y y (get_proofs_spent_dict ys db))
              (at_Y y (get_proofs_pending_dict ys db)))
          zs)
      ≡ map {B = Answer} (λ y. (y, recorded db y)) zs
answers [] ys db h = refl
answers (z ∷ zs) ys db h = λ i.
    ((
      state_of-Y z (at_Y z (get_proofs_spent_dict ys db)) (at_Y z (get_proofs_pending_dict ys db))
          i,
      state_of-recorded z ys db h.0 i,
    )
      ∷ answers zs ys db h.1 i)

-- For every Y asked for, in the order asked, the state is spent if the Y is in the table of spent
-- proofs, else pending if it is in the table of pending proofs, and else unspent.
pub get_proofs_states-recorded :
    (ys : List String) (db : Db)
    → map answer (get_proofs_states ys db) ≡ map {B = Answer} (λ y. (y, recorded db y)) ys
unfolding get_proofs_states
get_proofs_states-recorded ys db = answers ys ys db (contains-All ys ys (λ x e. e))
