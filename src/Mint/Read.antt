-- ===== src/Mint/Read.antt =====
-- `DbReadHelper` of cashu/mint/db/read.py. A dict from Y to the proof is the list of the rows found,
-- whose Ys the UNIQUE constraint keeps apart.
pub mod States
use nutshell.Base.{String, Option, none, some, List, map, ◌==◌, find, is_empty}
use nutshell.Core.Errors.{proofs_already_spent}
use nutshell.Core.Proofs.{Proof, ProofSpentState}
use nutshell.Core.Result.{Result, require}
use nutshell.Mint.State.{Db, ProofState}
use nutshell.Mint.Crud.{get_proofs_used, get_proofs_pending}

abbrev pub proof_Ys : List Proof → List String
proof_Ys = map (λ p. p.Y)

unfoldable pub get_proofs_pending_dict : List String → Db → List Proof
get_proofs_pending_dict ys db = get_proofs_pending ys db

unfoldable pub get_proofs_spent_dict : List String → Db → List Proof
get_proofs_spent_dict ys db = get_proofs_used ys db

-- `proofs_spent[Y]`, and `Y in proofs_spent` where it is there
abbrev pub at_Y : String → List Proof → Option Proof
at_Y y = find (λ p. p.Y == y)

abbrev pub state_of : String → Option Proof → Option Proof → ProofState
state_of y none none = record { Y = y; state = ProofSpentState.unspent; witness = none }
state_of y none (some _) = record { Y = y; state = ProofSpentState.pending; witness = none }
state_of y (some p) _ = record { Y = y; state = ProofSpentState.spent; witness = p.witness }

unfoldable pub get_proofs_states : List String → Db → List ProofState
get_proofs_states ys db =
    map
      (λ y.
        state_of y (at_Y y (get_proofs_spent_dict ys db)) (at_Y y (get_proofs_pending_dict ys db)))
      ys

unfoldable pub verify_proofs_spendable : List Proof → Db → Result (Unit {0})
verify_proofs_spendable proofs db =
    require (is_empty (get_proofs_spent_dict (proof_Ys proofs) db)) proofs_already_spent
