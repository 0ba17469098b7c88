-- ===== src/Mint/Melt/Ending.antt =====
-- How the payment of a melt ends when a paid quote is returned (cashu/mint/ledger.py, 946-1057).
use nutshell.Base.{
  ℤ, String, Bool, true, false, Option, none, some, List, ◌≡◌, refl, ap, sym, ◌∙◌, subst, arith,
  inl, inr, Bool-cases, if◌then◌else◌,
}
use nutshell.Core.Currency.{CurrencyUnit, Amount, Rounding, thousandfold}
use nutshell.Core.Proofs.{Proof, BlindedMessage}
use nutshell.Core.Quotes.{MeltQuote, MeltQuoteState, melt_state_eq, set_melt_state}
use nutshell.Core.Result.{ok}
use nutshell.Mint.State.{Mint, IsKeyed, pure, ◌>>◌}
use nutshell.Mint.Chains.{>>=-returns, lift-returns, err-ne-ok}
use nutshell.Mint.Lightning.{PaymentResult, PaymentStatus, Payments, is_failure}
use nutshell.Mint.Quotes.{update_melt_quote}
use nutshell.Mint.Crud.{delete_blinded_messages_melt_id}
use nutshell.Mint.Verification.{Env}
use nutshell.Mint.Write.{unset_proofs_pending}
use nutshell.Mint.Write.Loops.{Known}
use nutshell.Mint.Write.Quotes.{unset_melt_quote_pending}
use nutshell.Mint.Ledger.Issued.{ok-inj}
use nutshell.Mint.Melt.Finish.{set_paid, fee_of_payment, finish}
use nutshell.Mint.Melt.Finished.{IsFinished, finish-IsFinished}
use nutshell.Mint.Melt.Pay.{
  disable, answer_or_unknown, checking_id_or, renamed, release_failed, by_second_answer, by_result,
  pay, finish_or_pay,
}

-- The quote is another; of the tables, only that of the melt quotes has changed.
abbrev OnlyMelt : MeltQuote → Mint → MeltQuote → Mint → Type 0
OnlyMelt q s q' t = (q'.quote ≡ q.quote) × (t.db ≡ record s.db { melt_quotes = t.db.melt_quotes })

renamed-OnlyMelt :
    (q q' : MeltQuote) (id : String) (s t : Mint)
    → renamed q id s ≡ (ok q', t)
    → OnlyMelt q s q' t × (q'.state ≡ q.state)
unfolding update_melt_quote
renamed-OnlyMelt q q' id s t e = ground arith

module _ (env : Env) (keyed : IsKeyed env.keysets) (payments : Payments) (ps : List Proof)
    (known : Known env.keysets ps) where
  pub set_paid-OnlyMelt :
      (q q' : MeltQuote) (fee : Option Amount) (preimage : Option String) (unit : CurrencyUnit)
      (round : Rounding) (s t : Mint)
      → set_paid env q fee preimage unit round s ≡ (ok q', t)
      → OnlyMelt q s q' t
  unfolding set_paid set_melt_state
  set_paid-OnlyMelt q q' fee preimage unit round s t e =
      let (paid, e₁, e₂) = lift-returns (set_melt_state q MeltQuoteState.paid) _ s e in
      let (n, _, e₃) = lift-returns (fee_of_payment paid fee unit round) _ s e₂ in
      ground (arith, e₁, e₃)

  release_failed-raises :
      (q done : MeltQuote) (s t : Mint) → release_failed env payments ps q s ≡ (ok done, t) → ⊥
  unfolding release_failed
  release_failed-raises q done s t e =
      let (_, u, _, e₁) = >>=-returns (unset_proofs_pending env.keysets ps true) _ s e in
      let (_, v, _, e₂) = >>=-returns (unset_melt_quote_pending q MeltQuoteState.unpaid) _ u e₁ in
      let (_, w, _, e₃) = >>=-returns (delete_blinded_messages_melt_id q.quote) _ v e₂ in
      err-ne-ok _ done (ap (λ r. r.0) e₃)

  kept_waiting :
      (q done : MeltQuote) (answer : Option PaymentStatus) (s t : Mint)
      → by_second_answer env payments ps q answer s ≡ (ok done, t)
      → done ≡ q
  kept_waiting q done none s t e = sym (ok-inj (ap (λ r. r.0) e))
  kept_waiting q done (some status) s t e = elim (Bool-cases (is_failure status.result)) [
    | inl failed ↦ absurd (
        release_failed-raises q done s t (
          subst
            (λ b.
              (if b then release_failed env payments ps q else (disable >> pure q)) s
              ≡ (ok done, t))
            failed e))
    | inr open_ ↦
        let e' : (disable >> pure q) s ≡ (ok done, t) =
          subst
            (λ b.
              (if b then release_failed env payments ps q else (disable >> pure q)) s
              ≡ (ok done, t))
            open_ e in
        sym (ok-inj (ap (λ r. r.0) e'))
  ]

  -- The quote was finished from a state in which at most the melt quotes had changed.
  abbrev pub FinishedFrom : ℤ → MeltQuote → Mint → MeltQuote → Mint → Type 0
  FinishedFrom provided q s done t =
      (q' : MeltQuote) × (u : Mint) × OnlyMelt q s q' u
      × IsFinished env keyed ps provided q' done u.db t.db

  by_result-FinishedFrom :
      (unit : CurrencyUnit) (provided : ℤ) (os : List BlindedMessage) (q done : MeltQuote)
      (result : PaymentResult) (id : Option String) (fee : Option Amount) (preimage : Option String)
      (s t : Mint)
      → (done ≡ q → ⊥)
      → by_result env payments ps unit provided os q
          (record { result = result; checking_id = id; fee = fee; preimage = preimage })
          s
        ≡ (ok done, t)
      → FinishedFrom provided q s done t
  unfolding by_result
  by_result-FinishedFrom unit provided os q done PaymentResult.settled id fee preimage s t waits e =
      let (q', u, e₁, e₂) = >>=-returns (set_paid env q fee preimage unit Rounding.up) _ s e in
      (
        q',
        u,
        set_paid-OnlyMelt q q' fee preimage unit Rounding.up s u e₁,
        finish-IsFinished env keyed ps provided os q' done u t known e₂,
      )
  by_result-FinishedFrom unit provided os q done PaymentResult.failed id fee preimage s t waits e =
      absurd (waits (kept_waiting q done _ s t e))
  by_result-FinishedFrom unit provided os q done PaymentResult.unknown id fee preimage s t waits e =
      absurd (waits (kept_waiting q done _ s t e))
  by_result-FinishedFrom unit provided os q done PaymentResult.pending id fee preimage s t waits e =
      absurd (waits (sym (ok-inj (ap (λ r. r.0) e))))

  pay-FinishedFrom :
      (unit : CurrencyUnit) (provided : ℤ) (os : List BlindedMessage) (q done : MeltQuote)
      (s t : Mint)
      → melt_state_eq q.state MeltQuoteState.paid ≡ false
      → done.state ≡ MeltQuoteState.paid
      → pay env payments ps unit provided os q s ≡ (ok done, t)
      → FinishedFrom provided q s done t
  unfolding pay
  pay-FinishedFrom unit provided os q done s t open_ paid e =
      let payment = answer_or_unknown (payments.pay_invoice q (thousandfold q.fee_reserve)) in
      let id = checking_id_or payment.checking_id q.checking_id in
      let (now, u, e₁, e₂) = >>=-returns (renamed q id) _ s e in
      let (only, state) = renamed-OnlyMelt q now id s u e₁ in
      let (q', v, only', finished) =
        by_result-FinishedFrom unit provided os now done payment.result payment.checking_id
          payment.fee payment.preimage u t
          (λ same. ground (arith, open_, paid, state, ap (λ (x : MeltQuote). x.state) same)) e₂ in
      (q', v, (only'.0 ∙ only.0, ground (arith, only.1, only'.1)), finished)

  pub finish_or_pay-FinishedFrom :
      (unit : CurrencyUnit) (provided : ℤ) (os : List BlindedMessage) (q done : MeltQuote)
      (s t : Mint)
      → done.state ≡ MeltQuoteState.paid
      → finish_or_pay env payments ps unit provided os q s ≡ (ok done, t)
      → FinishedFrom provided q s done t
  finish_or_pay-FinishedFrom unit provided os q done s t paid e =
      let way : Bool → Type 0 = λ b.
        (if b then finish env ps provided os q else pay env payments ps unit provided os q) s
        ≡ (ok done, t) in
      elim (Bool-cases (melt_state_eq q.state MeltQuoteState.paid)) [
        | inl internal ↦ (
          q,
          s,
          (refl, refl),
          finish-IsFinished env keyed ps provided os q done s t known (subst way internal e),
        )
        | inr open_ ↦ pay-FinishedFrom unit provided os q done s t open_ paid (subst way open_ e)
      ]
