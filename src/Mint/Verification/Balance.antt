-- ===== src/Mint/Verification/Balance.antt =====
-- The balance of a transaction: inputs are outputs and fees together, and the fee is the sum of the
-- keysets' fees per thousand, rounded up.
use nutshell.Base.{
  ℕ, ℤ, pos, pos_part, neg_part, ◌+ℤ◌, ◌-ℤ◌, ◌<ℤ◌, ◌+◌, ◌*◌, ◌^◌, ◌≤◌, ◌<◌, List, [], ◌∷◌, map, ◌≡◌,
  refl, ap, arith, int_laws, All, inl, inr, is_empty, eqb_ℤ→eq,
}
use nutshell.Core.Errors.{transaction_error}
use nutshell.Core.Proofs.{Proof, BlindedMessage, sum_proofs, sum_outputs, sum_by}
use nutshell.Core.Result.{
  ok, raise_if, map_result, >>=-eq-ok, >>-eq-ok, require-eq-ok, Result-cases,
}
use nutshell.Mint.Verification.{
  Env, verify_amount, verify_units_match, verify_equation_balanced, get_fees_for_proofs,
  checked_sum, unit_of, fee_of, sum_ppk,
}

sum_by-map : {A : Type 0} (f : A → ℤ) (xs : List A) → sum_by (λ a. a) (map f xs) ≡ sum_by f xs
sum_by-map f [] = refl
sum_by-map f (x ∷ xs) = ap (λ t. f x +ℤ t) (sum_by-map f xs)

All-map :
    {A : Type 0} (P : ℤ → Type 0) (f : A → ℤ) (xs : List A)
    → All P (map f xs)
    → All (λ (x : A). P (f x)) xs
All-map P f [] h = tt
All-map P f (x ∷ xs) h = (h.0, All-map P f xs h.1)

difference_zero : (a b : ℤ) → a -ℤ b ≡ pos 0 → a ≡ b
difference_zero a b h = grind (int_laws, ap pos_part h, ap neg_part h)

module _ (env : Env) where
  -- Positive, and less than 2 ^ max_order.
  abbrev pub IsAmount : ℤ → Type 0
  IsAmount a = (pos 0 <ℤ a) × (a <ℤ pos (2 ^ env.settings.max_order))

  pub verify_amount-IsAmount : (a v : ℤ) → verify_amount env a ≡ ok v → IsAmount a × (v ≡ a)
  unfolding verify_amount
  verify_amount-IsAmount a v e = ground arith

  checked_sum-sum :
      (amounts : List ℤ) (v : ℤ)
      → checked_sum env amounts ≡ ok v
      → All IsAmount amounts × (v ≡ sum_by (λ a. a) amounts)
  checked_sum-sum [] v e = ground arith
  checked_sum-sum (a ∷ amounts) v e =
      let (a', e₁, e₂) = >>=-eq-ok (verify_amount env a) _ e in
      let (rest, e₃, e₄) = >>=-eq-ok (checked_sum env amounts) _ e₂ in
      ground (arith, verify_amount-IsAmount a a' e₁, checked_sum-sum amounts rest e₃)

  -- When the fee of proofs is defined, it is the total of the input_fee_ppk of their keysets over
  -- 1000, rounded up: 1000 times the fee is at least that total, and less than the total plus 1000.
  pub get_fees_for_proofs-rounds_up :
      (proofs : List Proof) (fee : ℕ)
      → get_fees_for_proofs env proofs ≡ ok fee
      → (fees : List ℕ) × (map_result (λ (p : Proof). fee_of env p.id) proofs ≡ ok fees)
        × (sum_ppk fees ≤ fee * 1000)
        × (fee * 1000 < sum_ppk fees + 1000)
  unfolding get_fees_for_proofs
  get_fees_for_proofs-rounds_up proofs fee e =
      let (units, e₁, e₂) = >>=-eq-ok (map_result (λ (p : Proof). unit_of env p.id) proofs) _ e in
      elim (Result-cases (map_result (λ (p : Proof). fee_of env p.id) proofs)) [
        | inl (d, failed) ↦ absurd (ground arith)
        | inr (fees, found) ↦ (fees, found, ground arith, ground arith)
      ]

  -- When the balance check passes, the fee of the proofs is defined, the outputs plus that fee are
  -- the inputs, and every amount of an input or an output is positive and below 2 ^ max_order.
  pub verify_equation_balanced-balances :
      (proofs : List Proof) (outs : List BlindedMessage)
      → verify_equation_balanced env proofs outs ≡ ok tt
      → (fee : ℕ) × (get_fees_for_proofs env proofs ≡ ok fee)
        × (sum_outputs outs +ℤ pos fee ≡ sum_proofs proofs)
        × All (λ (p : Proof). IsAmount p.amount) proofs
        × All (λ (o : BlindedMessage). IsAmount o.amount) outs
  unfolding verify_equation_balanced
  verify_equation_balanced-balances proofs outs e =
      let ins = map (λ (p : Proof). p.amount) proofs in
      let out_amounts = map (λ (o : BlindedMessage). o.amount) outs in
      let (_, e₁) =
        >>-eq-ok (raise_if (is_empty proofs) (transaction_error "no proofs provided.")) _ e in
      let (_, e₂) =
        >>-eq-ok (raise_if (is_empty outs) (transaction_error "no outputs provided.")) _ e₁ in
      let (_, _, e₃) = >>=-eq-ok (verify_units_match env proofs outs) _ e₂ in
      let (sum_ins, e₄, e₅) = >>=-eq-ok (checked_sum env ins) _ e₃ in
      let (fee, e₆, e₇) = >>=-eq-ok (get_fees_for_proofs env proofs) _ e₅ in
      let (sum_outs, e₈, e₉) = >>=-eq-ok (checked_sum env out_amounts) _ e₇ in
      let (ins_ok, ins_sum) = checked_sum-sum ins sum_ins e₄ in
      let (outs_ok, outs_sum) = checked_sum-sum out_amounts sum_outs e₈ in
      let zero = eqb_ℤ→eq (sum_outs +ℤ pos fee -ℤ sum_ins) (pos 0) (require-eq-ok _ _ e₉) in
      (
        fee,
        e₆,
        difference_zero (sum_outputs outs +ℤ pos fee) (sum_proofs proofs) (
            rw
              (
                ← sum_by-map (λ (o : BlindedMessage). o.amount) outs,
                ← sum_by-map (λ (p : Proof). p.amount) proofs,
                ← outs_sum,
                ← ins_sum,
              )
              zero),
        All-map IsAmount (λ (p : Proof). p.amount) proofs ins_ok,
        All-map IsAmount (λ (o : BlindedMessage). o.amount) outs outs_ok,
      )
