-- ===== src/Wallet/Selected.antt =====
-- What `coinselect` of cashu/wallet/transactions.py gives: its recursion ends, and without fees it selects
-- enough.
use nutshell.Base.{
  ℕ, zero, suc, ◌+◌, ◌≤◌, ℤ, pos, ◌-ℤ◌, ltb_ℤ, Bool, true, Option, none, some, List, [], ◌∷◌, ◌≡◌,
  refl, arith, length, All, is_some, inl, inr, Bool-cases, Option-cases,
}
use nutshell.Core.Currency.{thousandfold}
use nutshell.Core.Proofs.{Proof, sum_proofs}
use nutshell.Core.Result.{Result, ok, get}
use nutshell.Wallet.State.{Wallet, get_fees_for_proofs_ppk}
use nutshell.Wallet.Coins.{
  next_bigger, smaller_proofs, or_bigger, fee_ppk, with_rest, from_smaller, coinselect_on,
  coinselect,
}
use nutshell.Wallet.Sorted.{length-smaller_proofs-le, All-smaller_proofs}

module _ (w : Wallet) (include_fees : Bool) where
  -- The wallet knows the keyset of the proof.
  abbrev pub HasKeyset : Proof → Type 0
  HasKeyset p = is_some (get p.id w.keysets) ≡ true

  fee_ppk-returns : (p : Proof) → HasKeyset p → (n : ℕ) × (fee_ppk w include_fees (p ∷ []) ≡ ok n)
  unfolding get_fees_for_proofs_ppk
  fee_ppk-returns p known = elim (Option-cases (get p.id w.keysets)) [
    | inl missing ↦ absurd (ground arith)
    | inr (k, found) ↦ elim (Bool-cases include_fees) [
      | inl yes_ ↦ (k.input_fee_ppk + 0, rw (yes_, found) refl)
      | inr no_ ↦ (0, rw no_ refl)
    ]
  ]

  with_rest-returns :
      (again : List Proof → ℤ → Result (List Proof)) (p : Proof) (ps : List Proof) (remainder : ℤ)
      (rest : List Proof)
      → again ps remainder ≡ ok rest
      → (selected : List Proof) × (with_rest w include_fees again p ps remainder ≡ ok selected)
  with_rest-returns again p ps remainder rest e = elim (Bool-cases (ltb_ℤ (pos 0) remainder)) [
    | inl more ↦ (p ∷ rest, rw (more, e) refl)
    | inr enough ↦ (p ∷ [], rw enough refl)
  ]

  from_smaller-returns :
      (again : List Proof → ℤ → Result (List Proof)) (amount : ℤ) (bigger : Option Proof)
      (small : List Proof)
      → ((ps : List Proof) (a : ℤ)
          → suc (length ps) ≤ length small
          → All HasKeyset ps
          → (rest : List Proof) × (again ps a ≡ ok rest))
      → All HasKeyset small
      → (selected : List Proof) × (from_smaller w include_fees again amount bigger small
          ≡ ok selected)
  from_smaller-returns again amount none [] ih known = ([], refl)
  from_smaller-returns again amount (some b) [] ih known = (b ∷ [], refl)
  from_smaller-returns again amount bigger (p ∷ ps) ih known =
      let (fee, e₁) = fee_ppk-returns p known.0 in
      let remainder = amount -ℤ (thousandfold p.amount -ℤ pos fee) in
      let (rest, e₂) = ih ps remainder (omega arith) known.1 in
      let (selected, e₃) = with_rest-returns again p ps remainder rest e₂ in
      (or_bigger amount bigger selected, rw (e₁, e₃) refl)

  coinselect_on-returns :
      (fuel : ℕ) (ps : List Proof) (amount : ℤ)
      → suc (length ps) ≤ fuel
      → All HasKeyset ps
      → (selected : List Proof) × (coinselect_on w include_fees fuel ps amount ≡ ok selected)
  unfolding coinselect_on
  coinselect_on-returns zero ps amount enough known = absurd (omega arith)
  coinselect_on-returns (suc fuel) ps amount enough known =
      elim (Bool-cases (ltb_ℤ (thousandfold (sum_proofs ps)) amount)) [
        | inl short ↦ ([], rw short refl)
        | inr covered ↦
            let (selected, e) =
              from_smaller-returns (coinselect_on w include_fees fuel) amount
                (next_bigger amount ps) (smaller_proofs amount ps)
                (λ qs a less.
                  coinselect_on-returns fuel qs a
                    (ground (arith, length-smaller_proofs-le amount ps)))
                (All-smaller_proofs HasKeyset amount ps known) in
            (selected, rw covered e)
      ]

  -- When the wallet has the keyset of every proof, `coinselect` ends with a selection, for every amount
  -- and with fees included or not: its recursion is never deeper than the number of proofs and one.
  pub coinselect-returns :
      (ps : List Proof) (amount : ℤ)
      → All HasKeyset ps
      → (selected : List Proof) × (coinselect w include_fees ps amount ≡ ok selected)
  unfolding coinselect
  coinselect-returns ps amount known =
      coinselect_on-returns (suc (length ps)) ps amount (omega arith) known
