-- ===== src/Tests/Swaps.antt =====
-- Swaps of the small mint, and what they are made of.
use nutshell.Base.{◌+ℤ◌, ◌-ℤ◌, pos, false, none, some, List, [], ◌∷◌, ◌≡◌, refl, All, Distinct}
use nutshell.Core.Errors.{proofs_already_spent, proofs_are_pending}
use nutshell.Core.Proofs.{BlindedMessage, BlindedSignature}
use nutshell.Core.Result.{ok, err}
use nutshell.Mint.State.{Mint}
use nutshell.Mint.Tables.{secrets, HashedRows}
use nutshell.Mint.Verification.{
  verify_inputs_and_outputs, verify_inputs, verify_swap_outputs, verify_outputs,
  verify_equation_balanced, get_fees_for_proofs, verify_units_match, verify_amount,
  verify_secret_criteria, verify_input_witness_criteria, verify_proof_bdhke,
  verify_no_duplicate_proofs, verify_no_duplicate_outputs, check_outputs_pending_or_issued_before,
  verify_input_output_amounts,
}
use nutshell.Mint.Conditions.SigAll.{verify_input_output_spending_conditions, inputs_require_sigall}
use nutshell.Mint.Conditions.{verify_input_spending_conditions}
use nutshell.Mint.Crud.{
  bump_keyset_balance, bump_keyset_fees_paid, get_outputs, get_proofs_pending, get_proofs_used,
  invalidate_proof, set_proof_pending, store_blinded_message, unset_proof_pending,
  update_blinded_message_signature,
}
use nutshell.Mint.Ledger.Issue.{
  fees_step, invalidate_proofs_in, invalidate_step, sign_all, sign_blinded_messages_in, sign_step,
  store_blinded_messages_in, store_step,
}
use nutshell.Mint.Ledger.Promise.{compute_promise, compute_promises}
use nutshell.Mint.Ledger.{swap, swap_body}
use nutshell.Mint.Read.{get_proofs_spent_dict, verify_proofs_spendable}
use nutshell.Mint.State.{transaction}
use nutshell.Mint.Write.{
  set_pending_body, set_pending_step, unset_pending_step, unset_proofs_pending,
  validate_proofs_pending, verify_spent_proofs_and_set_pending,
}
use nutshell.Mint.Ledger.Swap.{swap-returns, swap-raises}
use nutshell.Mint.Ledger.SwapBody.{IsSwapped}
use nutshell.Mint.Write.Pending.{
  Spendable, IsPending, unset-set_pending, verify_spent_proofs_and_set_pending-returns,
  verify_spent_proofs_and_set_pending-raises,
}
use nutshell.Mint.Verification.Inputs.{IsAccepted, verify_inputs-returns}
use nutshell.Tests.World.{env, hash, four, two, output, start}

abbrev outputs : List BlindedMessage
outputs = output 2 "b" ∷ output 1 "c" ∷ []

-- Four in, three out and one for the fee.
abbrev after_swap : Mint
after_swap = (swap env (four ∷ []) outputs none start).1

abbrev signatures : List BlindedSignature
signatures =
    record { id = "k"; amount = pos 2; C_ = "twob"; dleq = ("e", "s") }
    ∷ record { id = "k"; amount = pos 1; C_ = "onec"; dleq = ("e", "s") }
    ∷ []

swap_runs : swap env (four ∷ []) outputs none start ≡ (ok signatures, after_swap)
unfolding ◌+ℤ◌ ◌-ℤ◌ verify_inputs_and_outputs verify_inputs verify_swap_outputs verify_outputs
    verify_equation_balanced get_fees_for_proofs verify_units_match verify_amount
    verify_secret_criteria verify_input_witness_criteria verify_proof_bdhke
    verify_no_duplicate_proofs verify_no_duplicate_outputs check_outputs_pending_or_issued_before
    verify_input_output_amounts verify_input_output_spending_conditions inputs_require_sigall
    verify_input_spending_conditions bump_keyset_balance bump_keyset_fees_paid get_outputs
    get_proofs_pending get_proofs_used invalidate_proof set_proof_pending store_blinded_message
    unset_proof_pending update_blinded_message_signature fees_step invalidate_proofs_in
    invalidate_step sign_all sign_blinded_messages_in sign_step store_blinded_messages_in store_step
    compute_promise compute_promises swap swap_body get_proofs_spent_dict verify_proofs_spendable
    transaction set_pending_body set_pending_step unset_pending_step unset_proofs_pending
    validate_proofs_pending verify_spent_proofs_and_set_pending
swap_runs = refl

swap-returns_example :
    (verify_inputs_and_outputs env (four ∷ []) (some outputs) start.db ≡ ok tt)
    × Spendable env.keysets (four ∷ []) start.db
    × IsSwapped env (four ∷ []) outputs signatures start.db after_swap.db
swap-returns_example =
    swap-returns env (refl, tt) hash (four ∷ []) outputs none start after_swap signatures tt
      (refl, tt) swap_runs

-- The proof is spent now.
abbrev second : Mint
second = (swap env (four ∷ []) (output 2 "d" ∷ output 1 "e" ∷ []) none after_swap).1

swap_twice_fails :
    swap env (four ∷ []) (output 2 "d" ∷ output 1 "e" ∷ []) none after_swap
    ≡ (err proofs_already_spent, second)
unfolding ◌+ℤ◌ ◌-ℤ◌ verify_inputs_and_outputs verify_inputs verify_swap_outputs verify_outputs
    verify_equation_balanced get_fees_for_proofs verify_units_match verify_amount
    verify_secret_criteria verify_input_witness_criteria verify_proof_bdhke
    verify_no_duplicate_proofs verify_no_duplicate_outputs check_outputs_pending_or_issued_before
    verify_input_output_amounts verify_input_output_spending_conditions inputs_require_sigall
    verify_input_spending_conditions bump_keyset_balance bump_keyset_fees_paid get_outputs
    get_proofs_pending get_proofs_used invalidate_proof set_proof_pending store_blinded_message
    unset_proof_pending update_blinded_message_signature fees_step invalidate_proofs_in
    invalidate_step sign_all sign_blinded_messages_in sign_step store_blinded_messages_in store_step
    compute_promise compute_promises swap swap_body get_proofs_spent_dict verify_proofs_spendable
    transaction set_pending_body set_pending_step unset_pending_step unset_proofs_pending
    validate_proofs_pending verify_spent_proofs_and_set_pending
swap_twice_fails = refl

after_swap-HashedRows : HashedRows hash after_swap.db.proofs_pending
unfolding ◌+ℤ◌ ◌-ℤ◌ verify_inputs_and_outputs verify_inputs verify_swap_outputs verify_outputs
    verify_equation_balanced get_fees_for_proofs verify_units_match verify_amount
    verify_secret_criteria verify_input_witness_criteria verify_proof_bdhke
    verify_no_duplicate_proofs verify_no_duplicate_outputs check_outputs_pending_or_issued_before
    verify_input_output_amounts verify_input_output_spending_conditions inputs_require_sigall
    verify_input_spending_conditions bump_keyset_balance bump_keyset_fees_paid get_outputs
    get_proofs_pending get_proofs_used invalidate_proof set_proof_pending store_blinded_message
    unset_proof_pending update_blinded_message_signature fees_step invalidate_proofs_in
    invalidate_step sign_all sign_blinded_messages_in sign_step store_blinded_messages_in store_step
    compute_promise compute_promises swap swap_body get_proofs_spent_dict verify_proofs_spendable
    transaction set_pending_body set_pending_step unset_pending_step unset_proofs_pending
    validate_proofs_pending verify_spent_proofs_and_set_pending
after_swap-HashedRows = tt

swap-raises_example : second.db ≡ after_swap.db
swap-raises_example =
    swap-raises env (refl, tt) hash (four ∷ []) (output 2 "d" ∷ output 1 "e" ∷ []) none after_swap
      second proofs_already_spent after_swap-HashedRows (refl, tt) swap_twice_fails

abbrev pending_two : Mint
pending_two = (verify_spent_proofs_and_set_pending env.keysets (four ∷ two ∷ []) (some "m") start).1

set_pending_runs :
    verify_spent_proofs_and_set_pending env.keysets (four ∷ two ∷ []) (some "m") start
    ≡ (ok tt, pending_two)
unfolding ◌+ℤ◌ ◌-ℤ◌ verify_inputs_and_outputs verify_inputs verify_swap_outputs verify_outputs
    verify_equation_balanced get_fees_for_proofs verify_units_match verify_amount
    verify_secret_criteria verify_input_witness_criteria verify_proof_bdhke
    verify_no_duplicate_proofs verify_no_duplicate_outputs check_outputs_pending_or_issued_before
    verify_input_output_amounts verify_input_output_spending_conditions inputs_require_sigall
    verify_input_spending_conditions bump_keyset_balance bump_keyset_fees_paid get_outputs
    get_proofs_pending get_proofs_used invalidate_proof set_proof_pending store_blinded_message
    unset_proof_pending update_blinded_message_signature fees_step invalidate_proofs_in
    invalidate_step sign_all sign_blinded_messages_in sign_step store_blinded_messages_in store_step
    compute_promise compute_promises swap swap_body get_proofs_spent_dict verify_proofs_spendable
    transaction set_pending_body set_pending_step unset_pending_step unset_proofs_pending
    validate_proofs_pending verify_spent_proofs_and_set_pending
set_pending_runs = refl

unset-set_pending_example :
    (u : Mint) × (unset_proofs_pending env.keysets (four ∷ two ∷ []) false pending_two ≡ (ok tt, u))
    × (u.db ≡ start.db)
unset-set_pending_example =
    unset-set_pending hash (four ∷ two ∷ []) (some "m") env.keysets false start pending_two
      (refl, tt) tt (refl, (refl, tt)) (refl, (refl, tt)) set_pending_runs

verify_spent_proofs_and_set_pending-returns_example :
    Spendable env.keysets (four ∷ two ∷ []) start.db
    × IsPending (four ∷ two ∷ []) (some "m") start.db pending_two.db
verify_spent_proofs_and_set_pending-returns_example =
    verify_spent_proofs_and_set_pending-returns env.keysets (four ∷ two ∷ []) (some "m") start
      pending_two (refl, tt) set_pending_runs

-- A proof that is pending is refused.
abbrev refused : Mint
refused = (verify_spent_proofs_and_set_pending env.keysets (two ∷ []) none pending_two).1

set_pending_refuses :
    verify_spent_proofs_and_set_pending env.keysets (two ∷ []) none pending_two
    ≡ (err proofs_are_pending, refused)
unfolding ◌+ℤ◌ ◌-ℤ◌ verify_inputs_and_outputs verify_inputs verify_swap_outputs verify_outputs
    verify_equation_balanced get_fees_for_proofs verify_units_match verify_amount
    verify_secret_criteria verify_input_witness_criteria verify_proof_bdhke
    verify_no_duplicate_proofs verify_no_duplicate_outputs check_outputs_pending_or_issued_before
    verify_input_output_amounts verify_input_output_spending_conditions inputs_require_sigall
    verify_input_spending_conditions bump_keyset_balance bump_keyset_fees_paid get_outputs
    get_proofs_pending get_proofs_used invalidate_proof set_proof_pending store_blinded_message
    unset_proof_pending update_blinded_message_signature fees_step invalidate_proofs_in
    invalidate_step sign_all sign_blinded_messages_in sign_step store_blinded_messages_in store_step
    compute_promise compute_promises swap swap_body get_proofs_spent_dict verify_proofs_spendable
    transaction set_pending_body set_pending_step unset_pending_step unset_proofs_pending
    validate_proofs_pending verify_spent_proofs_and_set_pending
set_pending_refuses = refl

verify_spent_proofs_and_set_pending-raises_example : refused ≡ pending_two
verify_spent_proofs_and_set_pending-raises_example =
    verify_spent_proofs_and_set_pending-raises env.keysets (two ∷ []) none pending_two refused
      proofs_are_pending set_pending_refuses

verify_inputs_accepts : verify_inputs env (four ∷ two ∷ []) ≡ ok tt
unfolding ◌+ℤ◌ ◌-ℤ◌ verify_inputs_and_outputs verify_inputs verify_swap_outputs verify_outputs
    verify_equation_balanced get_fees_for_proofs verify_units_match verify_amount
    verify_secret_criteria verify_input_witness_criteria verify_proof_bdhke
    verify_no_duplicate_proofs verify_no_duplicate_outputs check_outputs_pending_or_issued_before
    verify_input_output_amounts verify_input_output_spending_conditions inputs_require_sigall
    verify_input_spending_conditions bump_keyset_balance bump_keyset_fees_paid get_outputs
    get_proofs_pending get_proofs_used invalidate_proof set_proof_pending store_blinded_message
    unset_proof_pending update_blinded_message_signature fees_step invalidate_proofs_in
    invalidate_step sign_all sign_blinded_messages_in sign_step store_blinded_messages_in store_step
    compute_promise compute_promises swap swap_body get_proofs_spent_dict verify_proofs_spendable
    transaction set_pending_body set_pending_step unset_pending_step unset_proofs_pending
    validate_proofs_pending verify_spent_proofs_and_set_pending
verify_inputs_accepts = refl

verify_inputs-returns_example :
    All (IsAccepted env) (four ∷ two ∷ []) × Distinct (secrets (four ∷ two ∷ []))
verify_inputs-returns_example = verify_inputs-returns env (four ∷ two ∷ []) verify_inputs_accepts
