-- ===== src/Mint/History/Pays.antt =====
-- Paying a melt, under the law of Mint/History/Grows.
use nutshell.Base.{
  map, ◌≡◌, ◌⊎◌, inl, inr, ap, sym, ℤ, String, true, false, Option, none, some, List, [], ◌∷◌, refl,
  arith,
}
use nutshell.Core.Currency.{CurrencyUnit, Amount, Rounding, thousandfold}
use nutshell.Core.Errors.{Error, transaction_error}
use nutshell.Core.Proofs.{Proof, BlindedMessage}
use nutshell.Core.Quotes.{
  MintQuote, MeltQuote, MeltQuoteState, melt_state_eq, MintQuoteState, mint_state_eq,
  set_mint_state, set_melt_state,
}
use nutshell.Core.Result.{Result, ok, err, require}
use nutshell.Mint.State.{Mint, transaction, pure, ◌>>◌}
use nutshell.Mint.Lightning.{PaymentResult, PaymentStatus, Payments, is_failure}
use nutshell.Mint.Verification.{Env, unit_of, verify_outputs, verify_inputs_and_outputs}
use nutshell.Mint.Verification.Quotes.{Backends, verify_and_get_unit_method}
use nutshell.Mint.Ledger.Settling.{
  settle_both, check_settlement, settle_found, melt_mint_settle_internally, settle_found-returns,
  settled_mint,
}
use nutshell.Mint.Melt.Checks.{
  Checked, check_enabled, check_blank_outputs, check_provided, check_sigall, check_quote,
  melt_checks,
}
use nutshell.Mint.Melt.Pay.{
  disable, answer_or_unknown, checking_id_or, renamed, release_failed, by_second_answer, by_result,
  pay, finish_or_pay, store_blank_outputs, melt_checked, melt,
}
use nutshell.Mint.Quotes.{updated_mint_row, update_mint_quote, update_melt_quote}
use nutshell.Mint.History.Grows.{
  OnlyGrows, IsGuarded, found-OnlyGrows, untouched, lift-OnlyGrows, lift_then-OnlyGrows,
  check-OnlyGrows, >>=-OnlyGrows, if-OnlyGrows,
}
use nutshell.Mint.History.Writes.{
  delete_outputs-OnlyGrows, verify_spent_proofs_and_set_pending-OnlyGrows,
  unset_proofs_pending-OnlyGrows, store_blinded_messages-OnlyGrows,
}
use nutshell.Mint.History.Parts.{
  set_melt_quote_pending-OnlyGrows, unset_melt_quote_pending-OnlyGrows,
}
use nutshell.Mint.History.Melts.{finish-OnlyGrows, set_paid-OnlyGrows, refresh_melt_quote-OnlyGrows}

renamed-OnlyGrows : (q : MeltQuote) (id : String) → OnlyGrows (renamed q id)
unfolding update_melt_quote
renamed-OnlyGrows q id = untouched (λ s. (ground arith, ground arith))

waits-OnlyGrows : (q : MeltQuote) → OnlyGrows (disable >> pure q)
waits-OnlyGrows q = untouched (λ s. (refl, refl))

module _ (env : Env) (payments : Payments) (ps : List Proof) where
  release_failed-OnlyGrows : (q : MeltQuote) → OnlyGrows (release_failed env payments ps q)
  unfolding release_failed
  release_failed-OnlyGrows q =
      >>=-OnlyGrows (unset_proofs_pending-OnlyGrows env.keysets ps true) (λ _.
        >>=-OnlyGrows (unset_melt_quote_pending-OnlyGrows q MeltQuoteState.unpaid)
          (λ _. >>=-OnlyGrows (delete_outputs-OnlyGrows q.quote) (λ _. lift-OnlyGrows {r = err _})))

  by_second_answer-OnlyGrows :
      (q : MeltQuote) (answer : Option PaymentStatus)
      → OnlyGrows (by_second_answer env payments ps q answer)
  by_second_answer-OnlyGrows q none = waits-OnlyGrows q
  by_second_answer-OnlyGrows q (some status) =
      if-OnlyGrows (is_failure status.result) (release_failed-OnlyGrows q) (waits-OnlyGrows q)

  module _ (unit : CurrencyUnit) (provided : ℤ) (os : List BlindedMessage) where
    by_result-OnlyGrows :
        (q : MeltQuote) (result : PaymentResult) (id : Option String) (fee : Option Amount)
        (preimage : Option String)
        → OnlyGrows (
            by_result env payments ps unit provided os q
              (record { result = result; checking_id = id; fee = fee; preimage = preimage }))
    unfolding by_result
    by_result-OnlyGrows q PaymentResult.settled id fee preimage =
        >>=-OnlyGrows (set_paid-OnlyGrows env q fee preimage unit Rounding.up)
          (finish-OnlyGrows env ps provided os)
    by_result-OnlyGrows q PaymentResult.failed id fee preimage = by_second_answer-OnlyGrows q _
    by_result-OnlyGrows q PaymentResult.unknown id fee preimage = by_second_answer-OnlyGrows q _
    by_result-OnlyGrows q PaymentResult.pending id fee preimage = lift-OnlyGrows

    pay-OnlyGrows : (q : MeltQuote) → OnlyGrows (pay env payments ps unit provided os q)
    unfolding pay
    pay-OnlyGrows q =
        let payment = answer_or_unknown (payments.pay_invoice q (thousandfold q.fee_reserve)) in
        >>=-OnlyGrows (renamed-OnlyGrows q (checking_id_or payment.checking_id q.checking_id))
          (λ now.
            by_result-OnlyGrows now payment.result payment.checking_id payment.fee payment.preimage)

    finish_or_pay-OnlyGrows :
        (q : MeltQuote) → OnlyGrows (finish_or_pay env payments ps unit provided os q)
    finish_or_pay-OnlyGrows q =
        if-OnlyGrows (melt_state_eq q.state MeltQuoteState.paid)
          (finish-OnlyGrows env ps provided os q) (pay-OnlyGrows q)

module _ (env : Env) (backends : Backends) (payments : Payments) where
  store_blank-OnlyGrows :
      (os : List BlindedMessage) (id : String) → OnlyGrows (store_blank_outputs env os id)
  unfolding store_blank_outputs
  store_blank-OnlyGrows [] id = lift-OnlyGrows
  store_blank-OnlyGrows (o ∷ os) id =
      store_blinded_messages-OnlyGrows env (o ∷ os) none none (some id)

  settle_found-raises :
      (q : MeltQuote) (found : Option MintQuote) (s : Mint) (e : Error)
      → (settle_found env backends q found s).0 ≡ err e
      → s.db.mint_quotes ≡ (settle_found env backends q found s).1.db.mint_quotes
  unfolding settle_found check_settlement settle_both set_melt_state set_mint_state
      update_mint_quote update_melt_quote transaction
  settle_found-raises q found s e raised = ground arith

  settle_found-written :
      (q : MeltQuote) (found : Option MintQuote) (s : Mint) (r : Result MeltQuote)
      → (settle_found env backends q found s).0 ≡ r
      → (s.db.mint_quotes ≡ (settle_found env backends q found s).1.db.mint_quotes)
        ⊎ ((m n : MintQuote) × (found ≡ some m)
            × (mint_state_eq m.state MintQuoteState.issued ≡ false)
            × (n.quote ≡ m.quote)
            × (map (updated_mint_row n) s.db.mint_quotes
                ≡ (settle_found env backends q found s).1.db.mint_quotes))
  settle_found-written q found s (err e) raised = inl (settle_found-raises q found s e raised)
  settle_found-written q found s (ok done) returned =
      elim (settle_found-returns env backends q found s (settle_found env backends q found s).1 done
        (λ i. (returned i, (settle_found env backends q found s).1))) [
          | inl (_, _, same) ↦ inl (ap (λ (x : Mint). x.db.mint_quotes) (sym same))
          | inr (m, is_found, _, settled) ↦ inr (
            m,
            settled_mint env backends m,
            is_found,
            ap (λ x. mint_state_eq x MintQuoteState.issued) settled.was_unpaid,
            refl,
            ap (λ (x : Mint). x.db.mint_quotes) (sym settled.both),
          )
        ]

  settle_found-spent :
      (q : MeltQuote) (found : Option MintQuote) (s : Mint)
      → s.db.proofs_used ≡ (settle_found env backends q found s).1.db.proofs_used
  unfolding settle_found check_settlement settle_both update_mint_quote update_melt_quote
      transaction
  settle_found-spent q found s = ground arith

  settle_found-IsGuarded :
      (q : MeltQuote) (found : Option MintQuote)
      → IsGuarded found (settle_found env backends q found)
  settle_found-IsGuarded q found = record {
    spent = settle_found-spent q found;
    written = λ s. settle_found-written q found s _ refl;
  }

  melt_checked-OnlyGrows :
      (ps : List Proof) (os : List BlindedMessage) (c : Checked)
      → OnlyGrows (melt_checked env backends payments ps os c)
  unfolding melt_checked melt_mint_settle_internally
  melt_checked-OnlyGrows ps os c =
      >>=-OnlyGrows
        (verify_spent_proofs_and_set_pending-OnlyGrows env.keysets ps (some c.quote.quote))
        (λ _. >>=-OnlyGrows (set_melt_quote_pending-OnlyGrows c.quote) (λ locked.
          >>=-OnlyGrows (store_blank-OnlyGrows os locked.quote) (λ _.
            >>=-OnlyGrows
              (found-OnlyGrows "" "" locked.request (settle_found env backends locked)
                (settle_found-IsGuarded locked))
              (finish_or_pay-OnlyGrows env payments ps c.unit c.provided os))))

  check_blank-OnlyGrows :
      (os : List BlindedMessage) (q : MeltQuote)
      → OnlyGrows (check_blank_outputs env backends payments os q)
  unfolding check_blank_outputs
  check_blank-OnlyGrows [] q = lift-OnlyGrows
  check_blank-OnlyGrows (o ∷ os) q =
      >>=-OnlyGrows (check-OnlyGrows (verify_outputs env (o ∷ os) true))
        (λ _. lift_then-OnlyGrows (unit_of env o.id) (λ unit. lift-OnlyGrows))

  check_provided-OnlyGrows :
      (ps : List Proof) (q : MeltQuote) → OnlyGrows (check_provided env backends payments ps q)
  unfolding check_provided
  check_provided-OnlyGrows ps q = untouched (λ s. (ground arith, ground arith))

  check_quote-OnlyGrows :
      (ps : List Proof) (id : String) (os : List BlindedMessage) (q : MeltQuote)
      → OnlyGrows (check_quote env backends payments ps id os q)
  unfolding check_quote
  check_quote-OnlyGrows ps id os q =
      lift_then-OnlyGrows
        (require (melt_state_eq q.state MeltQuoteState.unpaid)
          (transaction_error "melt quote is not unpaid"))
        (λ _. lift_then-OnlyGrows (verify_and_get_unit_method env backends q.unit q.method) (λ um.
          >>=-OnlyGrows (check_blank-OnlyGrows os q) (λ _.
            lift_then-OnlyGrows (check_sigall env backends payments ps os id) (λ _.
              >>=-OnlyGrows (check_provided-OnlyGrows ps q) (λ provided.
                >>=-OnlyGrows (check-OnlyGrows (verify_inputs_and_outputs env ps none))
                  (λ _. lift-OnlyGrows))))))

  pub melt_checks-OnlyGrows :
      (ps : List Proof) (id : String) (os : List BlindedMessage)
      → OnlyGrows (melt_checks env backends payments ps id os)
  unfolding melt_checks check_enabled
  melt_checks-OnlyGrows ps id os =
      >>=-OnlyGrows {m = check_enabled env backends payments} (untouched (λ s. (refl, refl))) (λ _.
        >>=-OnlyGrows (refresh_melt_quote-OnlyGrows env backends payments id false)
          (check_quote-OnlyGrows ps id os))

  pub melt-OnlyGrows :
      (ps : List Proof) (id : String) (os : List BlindedMessage)
      → OnlyGrows (melt env backends payments ps id os)
  unfolding melt
  melt-OnlyGrows ps id os =
      >>=-OnlyGrows (melt_checks-OnlyGrows ps id os) (melt_checked-OnlyGrows ps os)
