-- ===== src/Mint/History/Melts.antt =====
-- Melting and asking for a melt quote, under the law of Mint/History/Grows.
use nutshell.Base.{
  ℤ, pos, ◌-ℤ◌, ltb_ℤ, String, Bool, true, false, ◌&&◌, not, Option, none, some, List, [], ◌∷◌,
  is_some, ◌==◌,
}
use nutshell.Core.Currency.{CurrencyUnit, Amount, Rounding}
use nutshell.Core.Errors.{transaction_error, exception}
use nutshell.Core.Proofs.{Proof, BlindedMessage, sum_proofs}
use nutshell.Core.Quotes.{MeltQuote, MeltQuoteState, melt_state_eq, set_melt_state}
use nutshell.Core.Result.{ok, or_raise, require, item}
use nutshell.Mint.State.{melt_quote_event, submit, pure, ◌>>=◌, ◌>>◌}
use nutshell.Mint.Crud.{get_pending_proofs_for_quote, get_blinded_messages_melt_id}
use nutshell.Mint.Lightning.{PaymentResult, PaymentStatus, Payments}
use nutshell.Mint.Verification.{Env, get_fees_for_proofs, verify_no_duplicate_outputs}
use nutshell.Mint.Verification.Quotes.{Backends, verify_and_get_unit_method}
use nutshell.Mint.Ledger.Change.{change_outputs, delete_rest, sign_change, generate_change_promises}
use nutshell.Mint.Melt.Finish.{fee_of_payment, set_paid, change_for, finish}
use nutshell.Mint.Melt.Refresh.{
  spend_pending, give_change, commit, roll_back, by_status, when_waiting, check_melt_quote,
  refresh_melt_quote, get_all_melt_quotes_from_pending_proofs, check_pending_proofs_and_melt_quotes,
}
use nutshell.Mint.Quotes.{update_melt_quote}
use nutshell.Mint.History.Grows.{
  OnlyGrows, lift-OnlyGrows, lift_then-OnlyGrows, submit-OnlyGrows, gets-OnlyGrows,
  announced-OnlyGrows, >>=-OnlyGrows, for_each-OnlyGrows, transaction-OnlyGrows, if-OnlyGrows,
}
use nutshell.Mint.History.Writes.{
  delete_outputs-OnlyGrows, update_melt_quote-OnlyGrows, get_mint_quote-OnlyGrows,
  get_melt_quote-OnlyGrows, unset_proofs_pending-OnlyGrows, unset_proofs_pending_in-OnlyGrows,
  invalidate_proofs_in-OnlyGrows, invalidate_proofs-OnlyGrows, sign_blinded_messages-OnlyGrows,
}

delete_rest-OnlyGrows : (id : Option String) → OnlyGrows (delete_rest id)
delete_rest-OnlyGrows none = lift-OnlyGrows
delete_rest-OnlyGrows (some id) =
    if-OnlyGrows (id == "") lift-OnlyGrows (delete_outputs-OnlyGrows id)

-- The end of both ways to finish a melt.
store_done-OnlyGrows :
    (q : MeltQuote) → OnlyGrows (update_melt_quote q >> (submit (melt_quote_event q) >> pure q))
store_done-OnlyGrows q =
    >>=-OnlyGrows (update_melt_quote-OnlyGrows q) (λ _. announced-OnlyGrows (melt_quote_event q) q)

module _ (env : Env) where
  sign_change-OnlyGrows :
      (overpaid : ℤ) (os : List BlindedMessage) (id : Option String)
      → OnlyGrows (sign_change env overpaid os id)
  unfolding sign_change
  sign_change-OnlyGrows overpaid os id =
      lift_then-OnlyGrows
        (require (verify_no_duplicate_outputs env (change_outputs overpaid os))
          (transaction_error "duplicate promises."))
        (λ _.
          >>=-OnlyGrows (sign_blinded_messages-OnlyGrows env (change_outputs overpaid os))
            (λ _. >>=-OnlyGrows (delete_rest-OnlyGrows id) (λ _. lift-OnlyGrows)))

  change_for-OnlyGrows :
      (provided : ℤ) (q : MeltQuote) (os : List BlindedMessage)
      → OnlyGrows (change_for env provided q os)
  unfolding change_for generate_change_promises
  change_for-OnlyGrows provided q [] = lift-OnlyGrows
  change_for-OnlyGrows provided q (o ∷ os) = lift_then-OnlyGrows (item o.id env.keysets) (λ _.
      if-OnlyGrows (ltb_ℤ (pos 0) (provided -ℤ q.fee_paid))
        (sign_change-OnlyGrows (provided -ℤ q.fee_paid) (o ∷ os) (some q.quote)) lift-OnlyGrows)

  pub finish-OnlyGrows :
      (ps : List Proof) (provided : ℤ) (os : List BlindedMessage) (q : MeltQuote)
      → OnlyGrows (finish env ps provided os q)
  unfolding finish
  finish-OnlyGrows ps provided os q =
      >>=-OnlyGrows (invalidate_proofs-OnlyGrows env ps (some q.quote)) (λ _.
        >>=-OnlyGrows (unset_proofs_pending-OnlyGrows env.keysets ps true) (λ _.
          >>=-OnlyGrows (change_for-OnlyGrows provided q os)
            (λ sigs. store_done-OnlyGrows (record q { change = sigs }))))

  pub set_paid-OnlyGrows :
      (q : MeltQuote) (fee : Option Amount) (preimage : Option String) (unit : CurrencyUnit)
      (r : Rounding)
      → OnlyGrows (set_paid env q fee preimage unit r)
  unfolding set_paid
  set_paid-OnlyGrows q fee preimage unit r =
      lift_then-OnlyGrows (set_melt_state q MeltQuoteState.paid)
        (λ paid. lift_then-OnlyGrows (fee_of_payment paid fee unit r) (λ _. lift-OnlyGrows))

  spend_pending-OnlyGrows : (ps : List Proof) (id : String) → OnlyGrows (spend_pending env ps id)
  unfolding spend_pending
  spend_pending-OnlyGrows ps id = transaction-OnlyGrows (
      >>=-OnlyGrows (invalidate_proofs_in-OnlyGrows env ps (some id))
        (λ _. unset_proofs_pending_in-OnlyGrows env.keysets ps true))

  give_change-OnlyGrows :
      (ps : List Proof) (os : List BlindedMessage) (q : MeltQuote)
      → OnlyGrows (give_change env ps os q)
  unfolding give_change
  give_change-OnlyGrows ps [] q = lift-OnlyGrows
  give_change-OnlyGrows ps (o ∷ os) q = lift_then-OnlyGrows (get_fees_for_proofs env ps) (λ fees.
      >>=-OnlyGrows (change_for-OnlyGrows (sum_proofs ps -ℤ q.amount -ℤ pos fees) q (o ∷ os))
        (λ _. lift-OnlyGrows))

  commit-OnlyGrows :
      (q : MeltQuote) (status : PaymentStatus) (unit : CurrencyUnit)
      → OnlyGrows (commit env q status unit)
  unfolding commit
  commit-OnlyGrows q status unit =
      >>=-OnlyGrows (set_paid-OnlyGrows q status.fee status.preimage unit Rounding.no_rounding)
        (λ paid. >>=-OnlyGrows (gets-OnlyGrows (get_pending_proofs_for_quote q.quote)) (λ ps.
          >>=-OnlyGrows (spend_pending-OnlyGrows ps q.quote) (λ _.
            >>=-OnlyGrows (gets-OnlyGrows (get_blinded_messages_melt_id q.quote))
              (λ os. >>=-OnlyGrows (give_change-OnlyGrows ps os paid) store_done-OnlyGrows))))

  roll_back-OnlyGrows : (q : MeltQuote) → OnlyGrows (roll_back env q)
  unfolding roll_back
  roll_back-OnlyGrows q = lift_then-OnlyGrows (set_melt_state q MeltQuoteState.unpaid) (λ unpaid.
      >>=-OnlyGrows (update_melt_quote-OnlyGrows unpaid) (λ _. >>=-OnlyGrows submit-OnlyGrows (λ _.
        >>=-OnlyGrows (gets-OnlyGrows (get_pending_proofs_for_quote q.quote)) (λ ps.
          >>=-OnlyGrows (unset_proofs_pending-OnlyGrows env.keysets ps true) (λ _.
            >>=-OnlyGrows (delete_outputs-OnlyGrows q.quote)
              (λ _. lift-OnlyGrows {r = ok unpaid}))))))

  by_status-OnlyGrows :
      (b : Bool) (q : MeltQuote) (unit : CurrencyUnit) (result : PaymentResult)
      (fee : Option Amount) (preimage : Option String)
      → OnlyGrows
          (by_status env b q unit (record { result = result; fee = fee; preimage = preimage }))
  unfolding by_status
  by_status-OnlyGrows b q unit PaymentResult.settled fee preimage = commit-OnlyGrows q _ unit
  by_status-OnlyGrows b q unit PaymentResult.failed fee preimage = roll_back-OnlyGrows q
  by_status-OnlyGrows b q unit PaymentResult.pending fee preimage = lift-OnlyGrows
  by_status-OnlyGrows b q unit PaymentResult.unknown fee preimage =
      if-OnlyGrows b (roll_back-OnlyGrows q) lift-OnlyGrows

module _ (env : Env) (backends : Backends) (payments : Payments) where
  when_waiting-OnlyGrows :
      (waits b : Bool) (q : MeltQuote) (unit : CurrencyUnit)
      → OnlyGrows (when_waiting env backends payments waits b q unit)
  when_waiting-OnlyGrows false b q unit = lift-OnlyGrows
  when_waiting-OnlyGrows true b q unit =
      lift_then-OnlyGrows (or_raise (payments.status_before q.checking_id) (exception "backend"))
        (λ status. by_status-OnlyGrows env b q unit status.result status.fee status.preimage)

  pub refresh_melt_quote-OnlyGrows :
      (id : String) (b : Bool) → OnlyGrows (refresh_melt_quote env backends payments id b)
  unfolding refresh_melt_quote check_melt_quote
  refresh_melt_quote-OnlyGrows id b = >>=-OnlyGrows (get_melt_quote-OnlyGrows id "" "") (λ found.
      lift_then-OnlyGrows (or_raise found (exception "quote not found")) (λ q.
        lift_then-OnlyGrows (verify_and_get_unit_method env backends q.unit q.method) (λ um.
          >>=-OnlyGrows (get_mint_quote-OnlyGrows "" "" q.request) (λ internal.
            when_waiting-OnlyGrows
              (melt_state_eq q.state MeltQuoteState.pending && not (is_some internal)) b q um.0))))

  pub check_pending-OnlyGrows :
      OnlyGrows (check_pending_proofs_and_melt_quotes env backends payments)
  unfolding check_pending_proofs_and_melt_quotes
  check_pending-OnlyGrows =
      >>=-OnlyGrows (gets-OnlyGrows (get_all_melt_quotes_from_pending_proofs env backends payments))
        (λ qs.
          for_each-OnlyGrows
            (λ (q : MeltQuote).
              refresh_melt_quote env backends payments q.quote false >>= λ _. pure tt)
            (λ q. >>=-OnlyGrows (refresh_melt_quote-OnlyGrows q.quote false) (λ _. lift-OnlyGrows))
            qs)
