-- ===== src/Wallet/Kept.antt =====
-- What the split of amounts in cashu/wallet/transactions.py keeps: the amounts add up.
use nutshell.Base.{
  ℕ, ℤ, pos, pos_part, ◌+ℤ◌, ◌-ℤ◌, ◌≤ℤ◌, ltb_ℤ, eqb_ℤ, eqb_ℤ→eq, String, Bool, true, false, Option,
  List, [], ◌∷◌, ◌++◌, map, ◌≡◌, refl, ap, sym, ◌∙◌, subst, arith, int_laws, inl, inr, Bool-cases,
}
use nutshell.Core.Errors.{exception}
use nutshell.Core.Proofs.{Proof, sum_proofs}
use nutshell.Core.Result.{ok, require, require-eq-ok, >>=-eq-ok, >>-eq-ok}
use nutshell.Core.Split.{amount_split}
use nutshell.Core.Split.Sum.{sum, sum-amount_split}
use nutshell.Wallet.State.{WalletKeyset, Wallet, get_fees_for_proofs}
use nutshell.Wallet.Outputs.{
  sum_ℤ, insert_amount, sort_amounts, unreserved, wanted, take_wanted, fill_up, active_keyset,
  get_allowed_amounts, split_wallet_state, tmp_proofs, keyset_id_or, send_fee,
  determine_output_amounts,
}

sum-insert_amount : (a : ℤ) (bs : List ℤ) → sum_ℤ (insert_amount a bs) ≡ a +ℤ sum_ℤ bs
sum-insert_amount a [] = refl
sum-insert_amount a (b ∷ bs) = grind (int_laws, sum-insert_amount a bs)

sum-sort_amounts : (xs : List ℤ) → sum_ℤ (sort_amounts xs) ≡ sum_ℤ xs
sum-sort_amounts [] = refl
sum-sort_amounts (a ∷ xs) =
    sum-insert_amount a (sort_amounts xs) ∙ ap (λ b. a +ℤ b) (sum-sort_amounts xs)

sum-append : (xs ys : List ℤ) → sum_ℤ (xs ++ ys) ≡ sum_ℤ xs +ℤ sum_ℤ ys
sum-append [] ys = omega int_laws
sum-append (x ∷ xs) ys = grind (int_laws, sum-append xs ys)

sum-map_pos : (ns : List ℕ) → sum_ℤ (map pos ns) ≡ pos (sum ns)
sum-map_pos [] = refl
sum-map_pos (n ∷ ns) = grind (int_laws, sum-map_pos ns)

sum-pieces : (a : ℤ) → sum_ℤ (map pos (amount_split a)) ≡ pos (pos_part a)
sum-pieces a = sum-map_pos (amount_split a) ∙ ap pos (sum-amount_split a)

-- The loop never takes more than the amount.
take_wanted-le :
    (total amount : ℤ) (want : List ℤ)
    → total ≤ℤ amount
    → total +ℤ sum_ℤ (take_wanted total amount want) ≤ℤ amount
take_wanted-le total amount [] h = omega int_laws
take_wanted-le total amount (a ∷ want) h = elim (Bool-cases (ltb_ℤ total amount)) [
  | inr full ↦ rw full (omega int_laws)
  | inl more ↦ elim (Bool-cases (ltb_ℤ amount (total +ℤ a))) [
    | inl over ↦ rw (more, over) (omega int_laws)
    | inr fits ↦
        let within : total +ℤ a ≤ℤ amount = grind (int_laws, fits) in
        rw (more, fits) (grind (int_laws, take_wanted-le (total +ℤ a) amount want within))
  ]
]

fill_up-sums :
    (amount : ℤ) (amounts : List ℤ)
    → sum_ℤ amounts ≤ℤ amount
    → sum_ℤ (fill_up amount amounts) ≡ amount
fill_up-sums amount amounts h = elim (Bool-cases (ltb_ℤ (pos 0) (amount -ℤ sum_ℤ amounts))) [
  | inl more ↦ rw more (
      grind (
        int_laws,
        sum-append amounts (map pos (amount_split (amount -ℤ sum_ℤ amounts))),
        sum-pieces (amount -ℤ sum_ℤ amounts),
        more,
        h,
      ))
  | inr full ↦ rw full (grind (int_laws, full, h))
]

eqb_ℤ_refl : (a : ℤ) → eqb_ℤ a a ≡ true
eqb_ℤ_refl a = ground arith

module _ (w : Wallet) where
  -- With an active keyset that the wallet has, every amount that is not negative is split, whatever the
  -- wallet holds and is meant to hold: the amounts that come out add up to it, so that the exception
  -- "Amounts do not sum" is never raised.
  pub split_wallet_state-sums :
      (keyset : WalletKeyset) (amount : ℤ)
      → active_keyset w ≡ ok keyset
      → pos 0 ≤ℤ amount
      → (amounts : List ℤ) × (split_wallet_state w amount ≡ ok amounts) × (sum_ℤ amounts ≡ amount)
  unfolding split_wallet_state get_allowed_amounts
  split_wallet_state-sums keyset amount active h =
      let want = sort_amounts (
        wanted w.wallet_target_amount_count (sort_amounts (unreserved w.proofs))
          (sort_amounts keyset.amounts)) in
      let taken = take_wanted (pos 0) amount want in
      let within : sum_ℤ taken ≤ℤ amount = grind (int_laws, take_wanted-le (pos 0) amount want h) in
      let amounts = sort_amounts (fill_up amount taken) in
      let total : sum_ℤ amounts ≡ amount =
        sum-sort_amounts (fill_up amount taken) ∙ fill_up-sums amount taken within in
      (amounts, rw (active, total, eqb_ℤ_refl amount) refl, total)

  split_wallet_state-returns :
      (amount : ℤ) (amounts : List ℤ)
      → split_wallet_state w amount ≡ ok amounts
      → sum_ℤ amounts ≡ amount
  unfolding split_wallet_state
  split_wallet_state-returns amount amounts e =
      let (possible, e₁, e₂) = >>=-eq-ok (get_allowed_amounts w) _ e in
      let want =
        sort_amounts
          (wanted w.wallet_target_amount_count (sort_amounts (unreserved w.proofs)) possible) in
      let made = sort_amounts (fill_up amount (take_wanted (pos 0) amount want)) in
      let (passed, e₃) =
        >>-eq-ok (require (eqb_ℤ (sum_ℤ made) amount) (exception "Amounts do not sum to amount.")) _
          e₂ in
      let same : made ≡ amounts = cc in
      ap sum_ℤ (sym same) ∙ eqb_ℤ→eq (sum_ℤ made) amount (require-eq-ok _ _ passed)

  send_fee-positive :
      (include_fees : Bool) (id : Option String) (amount fee : ℤ)
      → send_fee w include_fees id amount ≡ ok fee
      → pos 0 ≤ℤ fee
  send_fee-positive false id amount fee e = ground arith
  send_fee-positive true id amount fee e =
      let (n, e₁, e₂) =
        >>=-eq-ok (get_fees_for_proofs w (tmp_proofs w (keyset_id_or w id) amount)) _ e in
      let same : pos n ≡ fee = cc in subst (λ a. pos 0 ≤ℤ a) same (omega arith)

  -- When the amounts of a transaction are determined, for an amount to send that is not negative, what is
  -- sent is worth the amount and, if they are included, the fees of the receiver; and what is kept, what is
  -- sent and the input fees add up to the proofs.
  pub determine_output_amounts-conserves :
      (proofs : List Proof) (amount : ℤ) (include_fees : Bool) (id : Option String)
      (keep send : List ℤ)
      → pos 0 ≤ℤ amount
      → determine_output_amounts w proofs amount include_fees id ≡ ok (keep, send)
      → (fee : ℤ) × (input_fees : ℕ) × (send_fee w include_fees id amount ≡ ok fee)
        × (get_fees_for_proofs w proofs ≡ ok input_fees)
        × (sum_ℤ send ≡ amount +ℤ fee)
        × (sum_ℤ keep +ℤ sum_ℤ send +ℤ pos input_fees ≡ sum_proofs proofs)
  unfolding determine_output_amounts
  determine_output_amounts-conserves proofs amount include_fees id keep send h e =
      let (fee, e₁, e₂) = >>=-eq-ok (send_fee w include_fees id amount) _ e in
      let (n, e₃, e₄) = >>=-eq-ok (get_fees_for_proofs w proofs) _ e₂ in
      let keep_amount = sum_proofs proofs -ℤ amount -ℤ fee -ℤ pos n in
      let (kept, e₅, e₆) = >>=-eq-ok (split_wallet_state w keep_amount) _ e₄ in
      let same : (kept ≡ keep) × (map pos (amount_split (amount +ℤ fee)) ≡ send) = ground arith in
      let positive = send_fee-positive include_fees id amount fee e₁ in
      let sent : sum_ℤ send ≡ amount +ℤ fee =
        ap sum_ℤ (sym same.1) ∙ grind (int_laws, sum-pieces (amount +ℤ fee), positive, h) in
      let left : sum_ℤ keep ≡ keep_amount =
        ap sum_ℤ (sym same.0) ∙ split_wallet_state-returns keep_amount kept e₅ in
      (fee, n, e₁, e₃, sent, grind (int_laws, sent, left))
