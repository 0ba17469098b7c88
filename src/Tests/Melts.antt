-- ===== src/Tests/Melts.antt =====
-- Melts of the small mint: paid, failed, refused and asked for again.
use nutshell.Base.{◌+ℤ◌, ◌-ℤ◌, pos, true, false, none, some, List, [], ◌∷◌, ◌≡◌, refl}
use nutshell.Core.Currency.{CurrencyUnit, to}
use nutshell.Core.Errors.{transaction_error, lightning_payment_failed}
use nutshell.Core.Proofs.{Proof, BlindedMessage}
use nutshell.Core.Quotes.{MeltQuote, MeltQuoteState, set_melt_state}
use nutshell.Core.Result.{ok, err}
use nutshell.Core.Split.{amount_split, bit_length, split_loop}
use nutshell.Mint.State.{Mint, transaction}
use nutshell.Mint.Conditions.SigAll.{
  check_at_least_one_sig_all, inputs_require_sigall, verify_all_secrets_equal_and_return,
  verify_lock, verify_sigall_spending_conditions,
}
use nutshell.Mint.Conditions.{verify_input_spending_conditions}
use nutshell.Mint.Crud.{
  bump_keyset_balance, bump_keyset_fees_paid, delete_blinded_messages_melt_id,
  get_blind_signatures_melt_id, get_outputs, get_pending_proofs_for_quote, get_proofs_pending,
  get_proofs_used, invalidate_proof, set_proof_pending, store_blinded_message, unset_proof_pending,
  update_blinded_message_signature,
}
use nutshell.Mint.Ledger.Change.{generate_change_promises, sign_change}
use nutshell.Mint.Ledger.Issue.{
  fees_step, invalidate_proofs, invalidate_proofs_in, invalidate_step, sign_all,
  sign_blinded_messages, sign_step, store_blinded_messages, store_blinded_messages_in, store_step,
}
use nutshell.Mint.Ledger.Promise.{compute_promise, compute_promises}
use nutshell.Mint.Ledger.Settling.{melt_mint_settle_internally, settle_found}
use nutshell.Mint.Lightning.{PaymentResult, PaymentStatus, Payments}
use nutshell.Mint.Melt.Checks.{
  Checked, check_blank_outputs, check_enabled, check_provided, check_quote, check_sigall,
  melt_checks,
}
use nutshell.Mint.Melt.Checked.{IsPayable, melt_checks-returns}
use nutshell.Mint.Melt.Asked.{Refreshed, refresh_melt_quote-Refreshed}
use nutshell.Mint.Melt.Failed.{IsRolledBack}
use nutshell.Mint.Melt.Finish.{change_for, finish, set_paid}
use nutshell.Mint.Melt.Melted.{IsMelted, melt-IsMelted}
use nutshell.Mint.Melt.Pay.{by_result, melt, melt_checked, pay, store_blank_outputs}
use nutshell.Mint.Melt.Refresh.{by_status, check_melt_quote, refresh_melt_quote, roll_back}
use nutshell.Mint.Melt.Released.{Locked, failed_payment-IsRolledBack}
use nutshell.Mint.Melt.Stranded.{melt_checked-IsPending}
use nutshell.Mint.Quotes.{
  get_melt_quote, get_melt_quotes_by_checking_id, get_mint_quote, update_melt_quote,
}
use nutshell.Mint.Read.{get_proofs_spent_dict, verify_proofs_spendable}
use nutshell.Mint.Verification.{
  check_outputs_pending_or_issued_before, get_fees_for_proofs, verify_amount,
  verify_input_witness_criteria, verify_inputs, verify_inputs_and_outputs,
  verify_no_duplicate_outputs, verify_no_duplicate_proofs, verify_outputs, verify_proof_bdhke,
  verify_secret_criteria, verify_units_match,
}
use nutshell.Mint.Verification.Quotes.{Backends, verify_and_get_unit_method}
use nutshell.Mint.Write.{
  set_pending_body, set_pending_step, unset_pending_step, unset_proofs_pending,
  validate_proofs_pending, verify_spent_proofs_and_set_pending,
}
use nutshell.Mint.Write.Pending.{Spendable, IsPending}
use nutshell.Mint.Write.Quotes.{is_taken, set_melt_quote_body, set_melt_quote_pending}
use nutshell.Tests.World.{env, hash, proof_of, output, start, melt_quote}

abbrev backends : Backends
backends = record {
  supports = λ m u. true;
  settled = λ c. some true;
  amount_msat = λ r. some (some (pos 4000));
  verify_x_only = λ p m s. some false;
}

abbrev answer : PaymentResult → PaymentStatus
answer result = record { result = result; fee = none; preimage = none }

-- The payment settles for a fee of one.
abbrev payments : Payments
payments = record {
  status_before = λ c. some (answer PaymentResult.failed);
  pay_invoice = λ q limit. some (record {
    result = PaymentResult.settled;
    checking_id = some "d";
    fee = some (record { unit = CurrencyUnit.sat; amount = pos 1 });
    preimage = some "pre";
  });
  status_after = λ c. none;
}

-- The payment fails, and so says the status.
abbrev failing : Payments
failing = record {
  status_before = λ c. some (answer PaymentResult.failed);
  pay_invoice = λ q limit. none;
  status_after = λ c. some (answer PaymentResult.failed);
}

abbrev eight : Proof
eight = proof_of 8 "d" "eightd" none

abbrev inputs : List Proof
inputs = eight ∷ []

abbrev blanks : List BlindedMessage
blanks = output 1 "b" ∷ output 1 "c" ∷ []

-- The mint without a mint quote for the invoice, and with the melt quote in a state.
abbrev before : MeltQuoteState → Mint
before state = record start {
  db = record start.db { mint_quotes = []; melt_quotes = melt_quote state ∷ [] };
}

abbrev unpaid : Mint
unpaid = before MeltQuoteState.unpaid

-- Eight for an amount of four, and an input fee of one.
abbrev checked : Checked
checked = record {
  quote = melt_quote MeltQuoteState.unpaid;
  unit = CurrencyUnit.sat;
  provided = pos 3;
}

check_runs : melt_checks env backends payments inputs "m" blanks unpaid ≡ (ok checked, unpaid)
unfolding ◌+ℤ◌ ◌-ℤ◌ check_blank_outputs check_enabled check_provided check_quote check_sigall
    melt_checks refresh_melt_quote check_melt_quote by_status get_melt_quote
    get_blind_signatures_melt_id get_mint_quote verify_and_get_unit_method
    verify_sigall_spending_conditions check_at_least_one_sig_all verify_all_secrets_equal_and_return
    verify_lock inputs_require_sigall verify_input_spending_conditions get_outputs
    get_fees_for_proofs verify_amount check_outputs_pending_or_issued_before
    verify_input_witness_criteria verify_inputs verify_inputs_and_outputs
    verify_no_duplicate_outputs verify_no_duplicate_proofs verify_outputs verify_proof_bdhke
    verify_secret_criteria verify_units_match
check_runs = refl

melt_checks-returns_example :
    IsPayable env inputs checked
    × (refresh_melt_quote env backends payments "m" false unpaid ≡ (ok checked.quote, unpaid))
melt_checks-returns_example =
    melt_checks-returns env backends payments inputs "m" blanks unpaid unpaid checked check_runs

abbrev done : MeltQuote
done = record (melt_quote MeltQuoteState.paid) {
  paid_time = some 1;
  fee_paid = pos 1;
  payment_preimage = some "pre";
  change = record { id = "k"; amount = pos 2; C_ = "twob"; dleq = ("e", "s") } ∷ [];
}

abbrev melted : Mint
melted = (melt env backends payments inputs "m" blanks unpaid).1

melt_runs : melt env backends payments inputs "m" blanks unpaid ≡ (ok done, melted)
unfolding ◌+ℤ◌ ◌-ℤ◌ check_blank_outputs check_enabled check_provided check_quote check_sigall
    melt_checks refresh_melt_quote check_melt_quote by_status get_melt_quote
    get_blind_signatures_melt_id get_mint_quote verify_and_get_unit_method
    verify_sigall_spending_conditions check_at_least_one_sig_all verify_all_secrets_equal_and_return
    verify_lock inputs_require_sigall verify_input_spending_conditions get_outputs
    get_fees_for_proofs verify_amount check_outputs_pending_or_issued_before
    verify_input_witness_criteria verify_inputs verify_inputs_and_outputs
    verify_no_duplicate_outputs verify_no_duplicate_proofs verify_outputs verify_proof_bdhke
    verify_secret_criteria verify_units_match melt melt_checked pay by_result store_blank_outputs
    finish set_paid change_for to amount_split bit_length split_loop bump_keyset_balance
    bump_keyset_fees_paid delete_blinded_messages_melt_id get_proofs_pending get_proofs_used
    invalidate_proof set_proof_pending store_blinded_message unset_proof_pending
    update_blinded_message_signature generate_change_promises sign_change fees_step
    invalidate_proofs invalidate_proofs_in invalidate_step sign_all sign_blinded_messages sign_step
    store_blinded_messages store_blinded_messages_in store_step compute_promise compute_promises
    melt_mint_settle_internally settle_found get_melt_quotes_by_checking_id update_melt_quote
    get_proofs_spent_dict verify_proofs_spendable set_pending_body set_pending_step
    unset_pending_step unset_proofs_pending validate_proofs_pending
    verify_spent_proofs_and_set_pending set_melt_quote_body set_melt_quote_pending set_melt_state
    transaction
melt_runs = refl

melt-IsMelted_example :
    IsPayable env inputs checked
    × Spendable env.keysets inputs unpaid.db
    × IsMelted env (refl, tt) backends payments inputs checked done unpaid.db melted.db
melt-IsMelted_example =
    melt-IsMelted env (refl, tt) backends payments hash inputs "m" blanks unpaid unpaid melted
      checked done tt (refl, tt) check_runs melt_runs refl

-- The locks of a melt whose payment will fail.
abbrev with_proofs : Mint
with_proofs = (verify_spent_proofs_and_set_pending env.keysets inputs (some "m") unpaid).1

abbrev with_quote : Mint
with_quote = (set_melt_quote_pending (melt_quote MeltQuoteState.unpaid) with_proofs).1

abbrev with_outputs : Mint
with_outputs = (store_blank_outputs env blanks "m" with_quote).1

set_proofs_runs :
    verify_spent_proofs_and_set_pending env.keysets inputs (some "m") unpaid ≡ (ok tt, with_proofs)
unfolding ◌+ℤ◌ ◌-ℤ◌ bump_keyset_balance get_proofs_pending get_proofs_used set_proof_pending
    get_proofs_spent_dict verify_proofs_spendable set_pending_body set_pending_step
    validate_proofs_pending verify_spent_proofs_and_set_pending transaction
set_proofs_runs = refl

melt-Locked :
    Locked env
      (refl, tt)
      backends
      failing
      inputs
      blanks
      checked
      unpaid
      (melt_quote MeltQuoteState.pending)
      with_outputs
unfolding ◌+ℤ◌ ◌-ℤ◌ bump_keyset_balance get_proofs_pending get_proofs_used set_proof_pending
    get_proofs_spent_dict verify_proofs_spendable set_pending_body set_pending_step
    validate_proofs_pending verify_spent_proofs_and_set_pending transaction store_blank_outputs
    store_blinded_messages store_blinded_messages_in store_step store_blinded_message
    get_melt_quotes_by_checking_id update_melt_quote set_melt_quote_body set_melt_quote_pending
    set_melt_state melt_mint_settle_internally settle_found get_mint_quote
melt-Locked = record {
  with_proofs = with_proofs;
  with_quote = with_quote;
  set_proofs = set_proofs_runs;
  set_quote = refl;
  stored = refl;
  external = refl;
}

failed_payment-IsRolledBack_example :
    (t : Mint) × (melt_checked env backends failing inputs blanks checked unpaid
      ≡ (err lightning_payment_failed, t))
    × IsRolledBack "m" unpaid.db t.db
failed_payment-IsRolledBack_example =
    failed_payment-IsRolledBack env (refl, tt) backends failing hash inputs blanks checked unpaid
      with_outputs (melt_quote MeltQuoteState.pending) (answer PaymentResult.failed) melt-Locked tt
      (refl, tt) (refl, tt) refl refl refl refl refl

-- Another quote for the same invoice is paid.
abbrev paid_before : Mint
paid_before = record start {
  db = record start.db {
    mint_quotes = [];
    melt_quotes =
        record (melt_quote MeltQuoteState.paid) { quote = "n" }
        ∷ melt_quote MeltQuoteState.unpaid
        ∷ [];
  };
}

abbrev stranded : Mint
stranded = (verify_spent_proofs_and_set_pending env.keysets inputs (some "m") paid_before).1

strands_runs :
    verify_spent_proofs_and_set_pending env.keysets inputs (some "m") paid_before
    ≡ (ok tt, stranded)
unfolding ◌+ℤ◌ ◌-ℤ◌ bump_keyset_balance get_proofs_pending get_proofs_used set_proof_pending
    get_proofs_spent_dict verify_proofs_spendable set_pending_body set_pending_step
    validate_proofs_pending verify_spent_proofs_and_set_pending transaction
strands_runs = refl

id_taken : is_taken "d" paid_before.db ≡ true
unfolding get_melt_quotes_by_checking_id
id_taken = refl

melt_checked-IsPending_example :
    (melt_checked env backends payments inputs blanks checked paid_before
      ≡ (err (transaction_error "Melt quote already paid or pending."), stranded))
    × IsPending inputs (some "m") paid_before.db stranded.db
melt_checked-IsPending_example =
    melt_checked-IsPending env backends payments inputs blanks checked paid_before stranded
      (refl, tt) refl id_taken strands_runs

-- A pending quote whose payment failed: its proofs are released.
abbrev waiting : Mint
waiting = record with_proofs {
  db = record with_proofs.db { melt_quotes = melt_quote MeltQuoteState.pending ∷ [] };
}

abbrev released : Mint
released = (refresh_melt_quote env backends failing "m" false waiting).1

release_runs :
    refresh_melt_quote env backends failing "m" false waiting
    ≡ (ok (melt_quote MeltQuoteState.unpaid), released)
unfolding ◌+ℤ◌ ◌-ℤ◌ refresh_melt_quote check_melt_quote by_status roll_back get_melt_quote
    get_blind_signatures_melt_id get_mint_quote verify_and_get_unit_method update_melt_quote
    set_melt_state get_pending_proofs_for_quote unset_proofs_pending unset_pending_step
    unset_proof_pending bump_keyset_balance delete_blinded_messages_melt_id transaction
    get_proofs_pending get_proofs_used set_proof_pending get_proofs_spent_dict
    verify_proofs_spendable set_pending_body set_pending_step validate_proofs_pending
    verify_spent_proofs_and_set_pending
release_runs = refl

refresh_melt_quote-Refreshed_example :
    (q : MeltQuote) × (get_melt_quote "m" "" "" waiting ≡ (ok (some q), waiting))
    × Refreshed env
        (refl, tt)
        backends
        failing
        false
        q
        (melt_quote MeltQuoteState.unpaid)
        waiting
        released
refresh_melt_quote-Refreshed_example =
    refresh_melt_quote-Refreshed env (refl, tt) backends failing "m" false waiting released
      (melt_quote MeltQuoteState.unpaid) release_runs
