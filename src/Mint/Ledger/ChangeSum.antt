-- ===== src/Mint/Ledger/ChangeSum.antt =====
-- The change of a melt: never more than what was overpaid, and all of it when there are enough blank
-- outputs.
use nutshell.Base.{
  ℕ, suc, ◌+◌, ◌≤◌, ℤ, pos, negsuc, pos_part, ◌+ℤ◌, ◌-ℤ◌, ◌≤ℤ◌, String, false, Option, some, List,
  [], ◌∷◌, map, ◌≡◌, refl, ap, subst, sym, ◌∙◌, arith, int_laws, length, inl, inr, Bool-cases,
  ltb_ℤ, if◌then◌else◌,
}
use nutshell.Core.Errors.{transaction_error}
use nutshell.Core.Proofs.{BlindedMessage, BlindedSignature, sum_outputs, sum_by}
use nutshell.Core.Result.{Result, ok, require, >>=-eq-ok}
use nutshell.Core.Split.{amount_split}
use nutshell.Core.Split.Sum.{sum, sum-amount_split}
use nutshell.Mint.State.{Mint, IsKeyed, pure}
use nutshell.Mint.Chains.{>>=-returns, lift-returns}
use nutshell.Mint.Verification.{Env, verify_no_duplicate_outputs}
use nutshell.Mint.Ledger.Promise.{Computed, signature_of, compute_promise, compute_promises}
use nutshell.Mint.Ledger.Issue.{sign_blinded_messages}
use nutshell.Mint.Ledger.Issued.{ok-inj, sign_blinded_messages-returns}
use nutshell.Mint.Ledger.SwapBody.{compute_promise-same}
use nutshell.Mint.Ledger.Change.{
  insert_descending, sort_descending, imprint, change_outputs, delete_rest, sign_change,
  generate_change_promises,
}

sum-insert_descending : (n : ℕ) (ms : List ℕ) → sum (insert_descending n ms) ≡ n + sum ms
sum-insert_descending n [] = omega arith
sum-insert_descending n (m ∷ ms) = ground (arith, sum-insert_descending n ms)

length-insert_descending : (n : ℕ) (ms : List ℕ) → length (insert_descending n ms) ≡ suc (length ms)
length-insert_descending n [] = refl
length-insert_descending n (m ∷ ms) = ground (arith, length-insert_descending n ms)

sum-sort_descending : (ns : List ℕ) → sum (sort_descending ns) ≡ sum ns
sum-sort_descending [] = refl
sum-sort_descending (n ∷ ns) =
    sum-insert_descending n (sort_descending ns) ∙ ap (λ k. n + k) (sum-sort_descending ns)

length-sort_descending : (ns : List ℕ) → length (sort_descending ns) ≡ length ns
length-sort_descending [] = refl
length-sort_descending (n ∷ ns) =
    length-insert_descending n (sort_descending ns) ∙ ap suc (length-sort_descending ns)

imprint-le : (ns : List ℕ) (os : List BlindedMessage) → sum_outputs (imprint ns os) ≤ℤ pos (sum ns)
imprint-le [] os = omega arith
imprint-le (n ∷ ns) [] = omega arith
imprint-le (n ∷ ns) (o ∷ os) = grind (int_laws, imprint-le ns os)

add_pos : (a b : ℕ) → pos a +ℤ pos b ≡ pos (a + b)
unfolding ◌+ℤ◌
add_pos a b = ground arith

imprint-all :
    (ns : List ℕ) (os : List BlindedMessage)
    → length ns ≤ length os
    → sum_outputs (imprint ns os) ≡ pos (sum ns)
imprint-all [] os h = refl
imprint-all (n ∷ ns) [] h = absurd (omega arith)
imprint-all (n ∷ ns) (o ∷ os) h =
    ap (λ x. pos n +ℤ x) (imprint-all ns os (omega arith)) ∙ add_pos n (sum ns)

-- What the signatures are worth.
abbrev pub sum_signatures : List BlindedSignature → ℤ
sum_signatures = sum_by (λ b. b.amount)

sum_signatures-outputs :
    (env : Env) (os : List BlindedMessage) (cs : List Computed)
    → compute_promises env os ≡ ok cs
    → sum_signatures (map signature_of cs) ≡ sum_outputs os
unfolding compute_promises
sum_signatures-outputs env [] cs e = ground arith
sum_signatures-outputs env (o ∷ os) cs e =
    let (c, e₁, e₂) = >>=-eq-ok (compute_promise env o) _ e in
    let (rest, e₃, e₄) = >>=-eq-ok (compute_promises env os) _ e₂ in
    let (id, amount) = compute_promise-same env o c e₁ in
    ground (arith, id, amount, sum_signatures-outputs env os rest e₃)

not_positive : (a : ℤ) → ltb_ℤ (pos 0) a ≡ false → pos_part a ≡ 0
not_positive (pos n) h = ground arith
not_positive (negsuc n) h = refl

-- Both claims on change, for outputs that were imprinted.
imprinted :
    (overpaid : ℤ) (os : List BlindedMessage) (worth : ℤ)
    → worth ≡ sum_outputs (change_outputs overpaid os)
    → (worth ≤ℤ pos (pos_part overpaid))
      × (length (amount_split overpaid) ≤ length os → worth ≡ pos (pos_part overpaid))
imprinted overpaid os worth e =
    let amounts = sort_descending (amount_split overpaid) in
    let total : sum amounts ≡ pos_part overpaid =
      sum-sort_descending (amount_split overpaid) ∙ sum-amount_split overpaid in
    (
      rw (e, ← total) (imprint-le amounts os),
      λ enough.
          e
          ∙ imprint-all amounts os (rw (length-sort_descending (amount_split overpaid)) enough)
          ∙ ap pos total,
    )

module _ (env : Env) (keyed : IsKeyed env.keysets) where
  sign_change-sum :
      (overpaid : ℤ) (os : List BlindedMessage) (melt_id : Option String) (s t : Mint)
      (sigs : List BlindedSignature)
      → sign_change env overpaid os melt_id s ≡ (ok sigs, t)
      → sum_signatures sigs ≡ sum_outputs (change_outputs overpaid os)
  unfolding sign_change
  sign_change-sum overpaid os melt_id s t sigs e =
      let outputs = change_outputs overpaid os in
      let (_, _, e₁) =
        lift-returns
          (require (verify_no_duplicate_outputs env outputs)
            (transaction_error "duplicate promises."))
          _ s e in
      let (made, u, e₂, e₃) = >>=-returns (sign_blinded_messages env outputs) _ s e₁ in
      let (_, v, e₄, e₅) = >>=-returns (delete_rest melt_id) (λ _. pure made) u e₃ in
      let (cs, computed, signed, _, _) =
        sign_blinded_messages-returns env keyed outputs s u made e₂ in
      let same : made ≡ sigs = ok-inj (ap (λ r. r.0) e₅) in
      ap sum_signatures (sym same ∙ signed) ∙ sum_signatures-outputs env outputs cs computed

  generate_change_promises-sum :
      (fee_provided fee_paid : ℤ) (os : List BlindedMessage) (melt_id : Option String) (s t : Mint)
      (sigs : List BlindedSignature)
      → generate_change_promises env fee_provided fee_paid (some os) melt_id s ≡ (ok sigs, t)
      → (sum_signatures sigs ≤ℤ pos (pos_part (fee_provided -ℤ fee_paid)))
        × (length (amount_split (fee_provided -ℤ fee_paid)) ≤ length os
            → sum_signatures sigs ≡ pos (pos_part (fee_provided -ℤ fee_paid)))
  unfolding generate_change_promises
  generate_change_promises-sum fee_provided fee_paid os melt_id s t sigs e =
      let overpaid = fee_provided -ℤ fee_paid in
      elim (Bool-cases (ltb_ℤ (pos 0) overpaid)) [
        | inl positive ↦ imprinted overpaid os (sum_signatures sigs) (
            sign_change-sum overpaid os melt_id s t sigs (
              subst
                (λ b. (if b then sign_change env overpaid os melt_id else pure []) s ≡ (ok sigs, t))
                positive e))
        | inr nothing ↦
            let none_made : ◌≡◌ {A = Result (List BlindedSignature) × Mint} (ok [], s)
                (ok sigs, t) =
              subst
                (λ b. (if b then sign_change env overpaid os melt_id else pure []) s ≡ (ok sigs, t))
                nothing e in
            let same : [] ≡ sigs = ok-inj (ap (λ r. r.0) none_made) in
            let zero_over = not_positive overpaid nothing in
            (rw (← same, zero_over) (omega arith), λ enough. rw (← same, zero_over) refl)
      ]

  -- The change that is returned is worth at most what was overpaid, and nothing if nothing was.
  -- (Every keyset is filed under its own id.)
  pub generate_change_promises_le_overpaid :
      (fee_provided fee_paid : ℤ) (os : List BlindedMessage) (melt_id : Option String) (s t : Mint)
      (sigs : List BlindedSignature)
      → generate_change_promises env fee_provided fee_paid (some os) melt_id s ≡ (ok sigs, t)
      → sum_signatures sigs ≤ℤ pos (pos_part (fee_provided -ℤ fee_paid))
  generate_change_promises_le_overpaid fee_provided fee_paid os melt_id s t sigs e =
      (generate_change_promises-sum fee_provided fee_paid os melt_id s t sigs e).0

  -- With at least as many blank outputs as `amount_split` gives pieces of what was overpaid, the
  -- change that is returned is worth all of it. (Every keyset is filed under its own id.)
  pub generate_change_promises_returns_all :
      (fee_provided fee_paid : ℤ) (os : List BlindedMessage) (melt_id : Option String) (s t : Mint)
      (sigs : List BlindedSignature)
      → length (amount_split (fee_provided -ℤ fee_paid)) ≤ length os
      → generate_change_promises env fee_provided fee_paid (some os) melt_id s ≡ (ok sigs, t)
      → sum_signatures sigs ≡ pos (pos_part (fee_provided -ℤ fee_paid))
  generate_change_promises_returns_all fee_provided fee_paid os melt_id s t sigs enough e =
      (generate_change_promises-sum fee_provided fee_paid os melt_id s t sigs e).1 enough
