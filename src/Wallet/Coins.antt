-- ===== src/Wallet/Coins.antt =====
-- `coinselect` of cashu/wallet/transactions.py. An amount to send may have a fraction, since fees are in
-- thousandths: it is counted in thousandths here, exactly, where the source has a float.
use nutshell.Base.{
  ℕ, zero, suc, ℤ, pos, ◌-ℤ◌, ltb_ℤ, leb_ℤ, Bool, true, Option, none, some, List, [], ◌∷◌, length,
  find, select, if◌then◌else◌,
}
use nutshell.Core.Currency.{thousandfold}
use nutshell.Core.Errors.{exception}
use nutshell.Core.Proofs.{Proof, sum_proofs}
use nutshell.Core.Result.{Result, ok, err, ◌>>=◌}
use nutshell.Wallet.State.{Wallet, get_fees_for_proofs_ppk, get_fees_for_proofs}

-- `sorted(proofs, key=lambda p: p.amount)`, which keeps the order of equal amounts; so does `reverse=True`.
abbrev pub insert_rising : Proof → List Proof → List Proof
insert_rising p [] = p ∷ []
insert_rising p (q ∷ qs) =
    let rest = insert_rising p qs in if leb_ℤ p.amount q.amount then p ∷ q ∷ qs else q ∷ rest

abbrev pub sort_rising : List Proof → List Proof
sort_rising [] = []
sort_rising (p ∷ ps) = insert_rising p (sort_rising ps)

abbrev pub insert_falling : Proof → List Proof → List Proof
insert_falling p [] = p ∷ []
insert_falling p (q ∷ qs) =
    let rest = insert_falling p qs in if leb_ℤ q.amount p.amount then p ∷ q ∷ qs else q ∷ rest

abbrev pub sort_falling : List Proof → List Proof
sort_falling [] = []
sort_falling (p ∷ ps) = insert_falling p (sort_falling ps)

abbrev pub is_bigger : ℤ → Proof → Bool
is_bigger amount p = ltb_ℤ amount (thousandfold p.amount)

abbrev pub next_bigger : ℤ → List Proof → Option Proof
next_bigger amount ps = find (is_bigger amount) (sort_rising ps)

abbrev pub smaller_proofs : ℤ → List Proof → List Proof
smaller_proofs amount ps =
    sort_falling (select (λ p. leb_ℤ (thousandfold p.amount) amount) (sort_rising ps))

-- `if sum_selected_proofs < amount_to_send and next_bigger: return [next_bigger]`
abbrev pub or_bigger : ℤ → Option Proof → List Proof → List Proof
or_bigger amount none selected = selected
or_bigger amount (some b) selected =
    if ltb_ℤ (thousandfold (sum_proofs selected)) amount then b ∷ [] else selected

module _ (w : Wallet) (include_fees : Bool) where
  abbrev pub fee_ppk : List Proof → Result ℕ
  fee_ppk selected = if include_fees then get_fees_for_proofs_ppk w selected else ok 0

  -- `if remainder > 0:` select from the other proofs, by `again`.
  abbrev pub with_rest :
      (List Proof → ℤ → Result (List Proof)) → Proof → List Proof → ℤ → Result (List Proof)
  with_rest again p ps remainder =
      if ltb_ℤ (pos 0) remainder
      then (again ps remainder >>= λ others. ok (p ∷ others))
      else ok (p ∷ [])

  abbrev pub from_smaller :
      (List Proof → ℤ → Result (List Proof)) → ℤ → Option Proof → List Proof → Result (List Proof)
  from_smaller again amount none [] = ok []
  from_smaller again amount (some b) [] = ok (b ∷ [])
  from_smaller again amount bigger (p ∷ ps) = do
    fee ← fee_ppk (p ∷ [])
    selected ← with_rest again p ps (amount -ℤ (thousandfold p.amount -ℤ pos fee))
    ok (or_bigger amount bigger selected)

  -- The recursion, on fuel; a call recurs on fewer proofs than it was given.
  unfoldable pub coinselect_on : ℕ → List Proof → ℤ → Result (List Proof)
  coinselect_on zero ps amount = err (exception "RecursionError")
  coinselect_on (suc fuel) ps amount =
      let again = coinselect_on fuel in
      if ltb_ℤ (thousandfold (sum_proofs ps)) amount
      then ok []
      else from_smaller again amount (next_bigger amount ps) (smaller_proofs amount ps)

  unfoldable pub coinselect : List Proof → ℤ → Result (List Proof)
  coinselect ps amount = coinselect_on (suc (length ps)) ps amount

-- `coinselect_fee`
unfoldable pub coinselect_fee : Wallet → List Proof → ℤ → Result ℕ
coinselect_fee w ps amount =
    coinselect w true ps (thousandfold amount) >>= λ selected. get_fees_for_proofs w selected
