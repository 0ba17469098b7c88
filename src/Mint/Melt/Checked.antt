-- ===== src/Mint/Melt/Checked.antt =====
-- What the checks of `melt` of cashu/mint/ledger.py have found when they return.
use nutshell.Base.{
  ℕ, ℤ, pos, ◌+ℤ◌, ◌-ℤ◌, ◌≤ℤ◌, String, true, false, none, List, [], ◌∷◌, ◌≡◌, ap, sym, ◌∙◌, subst,
  arith, int_laws, Distinct, All, ltb_ℤ,
}
use nutshell.Core.Errors.{transaction_error}
use nutshell.Core.Proofs.{Proof, BlindedMessage, sum_proofs}
use nutshell.Core.Quotes.{MeltQuote, MeltQuoteState, melt_state_eq}
use nutshell.Core.Result.{ok, require, raise_if, require-eq-ok, raise_if-eq-ok, >>-eq-ok}
use nutshell.Mint.State.{Mint}
use nutshell.Mint.Chains.{>>=-returns, lift-returns, check-returns}
use nutshell.Mint.Lightning.{Payments}
use nutshell.Mint.Tables.{secrets}
use nutshell.Mint.Verification.{
  Env, unit_of, verify_outputs, get_fees_for_proofs, verify_inputs, verify_inputs_and_outputs,
}
use nutshell.Mint.Verification.Inputs.{IsAccepted, verify_inputs-returns}
use nutshell.Mint.Verification.Quotes.{Backends, verify_and_get_unit_method}
use nutshell.Mint.Ledger.Issued.{ok-inj}
use nutshell.Mint.Melt.Refresh.{refresh_melt_quote}
use nutshell.Mint.Melt.Checks.{
  Checked, check_enabled, check_blank_outputs, check_sigall, check_provided, check_quote,
  melt_checks,
}

-- What a checked melt may rely on.
pub record IsPayable (env : Env) (ps : List Proof) (c : Checked) : Type 0 where
  pub unpaid : c.quote.state ≡ MeltQuoteState.unpaid
  pub accepted : All (IsAccepted env) ps
  pub distinct : Distinct (secrets ps)
  pub fees : ℕ
  pub fees_due : get_fees_for_proofs env ps ≡ ok fees
  pub provided : c.provided ≡ sum_proofs ps -ℤ c.quote.amount -ℤ pos fees
  pub enough : c.quote.amount +ℤ c.quote.fee_reserve +ℤ pos fees ≤ℤ sum_proofs ps

unpaid-eq :
    (q : MeltQuoteState) → melt_state_eq q MeltQuoteState.unpaid ≡ true → q ≡ MeltQuoteState.unpaid
unpaid-eq q h = ground arith

not_less : (a b : ℤ) → ltb_ℤ a b ≡ false → b ≤ℤ a
not_less a b h = grind (int_laws, h)

module _ (env : Env) (backends : Backends) (payments : Payments) where
  check_provided-returns :
      (ps : List Proof) (q : MeltQuote) (s t : Mint) (provided : ℤ)
      → check_provided env backends payments ps q s ≡ (ok provided, t)
      → (fees : ℕ) × (get_fees_for_proofs env ps ≡ ok fees)
        × (provided ≡ sum_proofs ps -ℤ q.amount -ℤ pos fees)
        × (q.amount +ℤ q.fee_reserve +ℤ pos fees ≤ℤ sum_proofs ps)
        × (t ≡ s)
  unfolding check_provided
  check_provided-returns ps q s t provided e =
      let (fees, due, e₁) = lift-returns (get_fees_for_proofs env ps) _ s e in
      let (_, enough, e₂) =
        lift-returns
          (raise_if (ltb_ℤ (sum_proofs ps) (q.amount +ℤ q.fee_reserve +ℤ pos fees))
            (transaction_error "not enough inputs provided for melt."))
          _ s e₁ in
      let (_, _, e₃) =
        lift-returns
          (raise_if (ltb_ℤ (sum_proofs ps -ℤ q.amount -ℤ pos fees) q.fee_reserve)
            (transaction_error "not enough fee reserve provided for melt."))
          _ s e₂ in
      (
        fees,
        due,
        sym (ok-inj (ap (λ r. r.0) e₃)),
        not_less (sum_proofs ps) (q.amount +ℤ q.fee_reserve +ℤ pos fees)
            (raise_if-eq-ok _ _ enough),
        sym (ap (λ r. r.1) e₃),
      )

  check_blank_outputs-reads :
      (os : List BlindedMessage) (q : MeltQuote) (s t : Mint)
      → check_blank_outputs env backends payments os q s ≡ (ok tt, t)
      → t ≡ s
  unfolding check_blank_outputs
  check_blank_outputs-reads [] q s t e = sym (ap (λ r. r.1) e)
  check_blank_outputs-reads (o ∷ os) q s t e =
      let (_, e₁) = check-returns (verify_outputs env (o ∷ os) true) _ s e in
      let (u, _, e₂) = lift-returns (unit_of env o.id) _ s e₁ in sym (ap (λ r. r.1) e₂)

  check_quote-returns :
      (ps : List Proof) (id : String) (os : List BlindedMessage) (q : MeltQuote) (s t : Mint)
      (c : Checked)
      → check_quote env backends payments ps id os q s ≡ (ok c, t)
      → IsPayable env ps c × (c.quote ≡ q) × (t ≡ s)
  unfolding check_quote verify_inputs_and_outputs
  check_quote-returns ps id os q s t c e =
      let (_, unpaid, e₁) =
        lift-returns
          (require (melt_state_eq q.state MeltQuoteState.unpaid)
            (transaction_error "melt quote is not unpaid"))
          _ s e in
      let (_, _, e₂) =
        lift-returns (verify_and_get_unit_method env backends q.unit q.method) _ s e₁ in
      let (_, u, e₃, e₄) = >>=-returns (check_blank_outputs env backends payments os q) _ s e₂ in
      let (_, _, e₅) = lift-returns (check_sigall env backends payments ps os id) _ u e₄ in
      let (provided, v, e₆, e₇) = >>=-returns (check_provided env backends payments ps q) _ u e₅ in
      let (checked, e₈) = check-returns (verify_inputs_and_outputs env ps none) _ v e₇ in
      let (fees, due, made, enough, same) = check_provided-returns ps q u v provided e₆ in
      let (inputs, _) = >>-eq-ok (verify_inputs env ps) (ok tt) checked in
      let (accepted, distinct) = verify_inputs-returns env ps inputs in
      let made_all = ok-inj (ap (λ r. r.0) e₈) in
      (
        subst (IsPayable env ps) made_all (record {
          unpaid = unpaid-eq q.state (require-eq-ok _ _ unpaid);
          accepted = accepted;
          distinct = distinct;
          fees = fees;
          fees_due = due;
          provided = made;
          enough = enough;
        }),
        sym (ap (λ (x : Checked). x.quote) made_all),
        sym (ap (λ r. r.1) e₈) ∙ same ∙ check_blank_outputs-reads os q s u e₃,
      )

  -- When the checks of a melt return, the quote is unpaid, every input is accepted, the secrets of the
  -- inputs are all different, the inputs are worth at least the amount, the fee reserve and the input
  -- fees, what is provided for the payment's fee is what is left of them after the amount and the input
  -- fees, and nothing has changed since the quote was refreshed.
  pub melt_checks-returns :
      (ps : List Proof) (id : String) (os : List BlindedMessage) (s t : Mint) (c : Checked)
      → melt_checks env backends payments ps id os s ≡ (ok c, t)
      → IsPayable env ps c × (refresh_melt_quote env backends payments id false s ≡ (ok c.quote, t))
  unfolding melt_checks check_enabled
  melt_checks-returns ps id os s t c e =
      let (_, u, e₁, e₂) = >>=-returns (check_enabled env backends payments) _ s e in
      let same : u ≡ s = sym (ap (λ r. r.1) e₁) in
      let (q, v, e₃, e₄) = >>=-returns (refresh_melt_quote env backends payments id false) _ u e₂ in
      let (payable, same_quote, last) = check_quote-returns ps id os q v t c e₄ in
      (
        payable,
        ap (refresh_melt_quote env backends payments id false) (sym same)
            ∙ e₃
            ∙ (λ i. (ok (sym same_quote i), sym last i)),
      )
