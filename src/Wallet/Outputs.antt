-- ===== src/Wallet/Outputs.antt =====
-- `split_wallet_state` and `determine_output_amounts` of cashu/wallet/transactions.py.
use nutshell.Base.{
  ℕ, zero, suc, ◌-◌, ℤ, pos, ◌+ℤ◌, ◌-ℤ◌, ltb_ℤ, leb_ℤ, eqb_ℤ, String, Bool, true, false, Option,
  none, some, List, [], ◌∷◌, ◌++◌, map, ◌==◌, if◌then◌else◌,
}
use nutshell.Core.Errors.{exception}
use nutshell.Core.Proofs.{Proof, sum_proofs, sum_by}
use nutshell.Core.Result.{Result, ok, err, require, or_raise, get, ◌>>=◌, ◌>>◌}
use nutshell.Core.Split.{amount_split}
use nutshell.Wallet.State.{WalletKeyset, Wallet, get_fees_for_proofs}

abbrev pub sum_ℤ : List ℤ → ℤ
sum_ℤ = sum_by (λ a. a)

-- `amounts.sort()`
abbrev pub insert_amount : ℤ → List ℤ → List ℤ
insert_amount a [] = a ∷ []
insert_amount a (b ∷ bs) =
    let rest = insert_amount a bs in if leb_ℤ a b then a ∷ b ∷ bs else b ∷ rest

abbrev pub sort_amounts : List ℤ → List ℤ
sort_amounts [] = []
sort_amounts (a ∷ as_) = insert_amount a (sort_amounts as_)

-- `amounts_we_have.count(a)`
abbrev pub count : ℤ → List ℤ → ℕ
count a [] = 0
count a (b ∷ bs) = let rest = count a bs in if eqb_ℤ b a then suc rest else rest

-- `[a] * n`
abbrev pub times : ℕ → ℤ → List ℤ
times zero a = []
times (suc n) a = a ∷ times n a

-- The amounts of the proofs that are not reserved.
abbrev pub unreserved : List (Proof × Bool) → List ℤ
unreserved [] = []
unreserved ((p, reserved) ∷ ps) =
    let rest = unreserved ps in if reserved then rest else p.amount ∷ rest

-- `amounts_we_want`, before it is sorted.
abbrev pub wanted : ℕ → List ℤ → List ℤ → List ℤ
wanted n_target have [] = []
wanted n_target have (a ∷ possible) =
    times (n_target - count a have) a ++ wanted n_target have possible

-- The loop: the wanted amounts, smallest first, as long as the sum stays within the amount.
abbrev pub take_wanted : ℤ → ℤ → List ℤ → List ℤ
take_wanted total amount [] = []
take_wanted total amount (a ∷ want) =
    let rest = take_wanted (total +ℤ a) amount want in
    if ltb_ℤ total amount then (if ltb_ℤ amount (total +ℤ a) then [] else a ∷ rest) else []

-- `if remaining_amount > 0: amounts += amount_split(remaining_amount)`
abbrev pub fill_up : ℤ → List ℤ → List ℤ
fill_up amount amounts =
    if ltb_ℤ (pos 0) (amount -ℤ sum_ℤ amounts)
    then amounts ++ map pos (amount_split (amount -ℤ sum_ℤ amounts))
    else amounts

module _ (w : Wallet) where
  -- `if not self.keyset_id or self.keyset_id not in self.keysets`
  abbrev pub active_keyset : Result WalletKeyset
  active_keyset =
      if w.keyset_id == ""
      then err (exception "No active keyset")
      else or_raise (get w.keyset_id w.keysets) (exception "No active keyset")

  unfoldable pub get_allowed_amounts : Result (List ℤ)
  get_allowed_amounts = active_keyset >>= λ keyset. ok (sort_amounts keyset.amounts)

  unfoldable pub split_wallet_state : ℤ → Result (List ℤ)
  split_wallet_state amount = do
    possible ← get_allowed_amounts
    let want =
        sort_amounts
          (wanted w.wallet_target_amount_count (sort_amounts (unreserved w.proofs)) possible)
    let amounts = sort_amounts (fill_up amount (take_wanted (pos 0) amount want))
    require (eqb_ℤ (sum_ℤ amounts) amount) (exception "Amounts do not sum to amount.")
    ok amounts

  -- `Proof(id=keyset_id)` for every piece of the amount to send.
  abbrev pub tmp_proofs : String → ℤ → List Proof
  tmp_proofs id amount =
      map (λ _. record { id = id; amount = pos 0; secret = ""; Y = ""; C = ""; witness = none })
        (amount_split amount)

  -- `keyset_id_outputs or self.keyset_id`
  abbrev pub keyset_id_or : Option String → String
  keyset_id_or none = w.keyset_id
  keyset_id_or (some id) = if id == "" then w.keyset_id else id

  -- The fee that the receiver will pay, if it is included.
  abbrev pub send_fee : Bool → Option String → ℤ → Result ℤ
  send_fee false id amount = ok (pos 0)
  send_fee true id amount =
      get_fees_for_proofs w (tmp_proofs (keyset_id_or id) amount) >>= λ fee. ok (pos fee)

  -- The amounts to keep, and the amounts to send.
  unfoldable pub determine_output_amounts :
      List Proof → ℤ → Bool → Option String → Result (List ℤ × List ℤ)
  determine_output_amounts proofs amount include_fees id = do
    fee ← send_fee include_fees id amount
    let send_amounts = map pos (amount_split (amount +ℤ fee))
    input_fees ← get_fees_for_proofs w proofs
    keep_amounts ← split_wallet_state (sum_proofs proofs -ℤ amount -ℤ fee -ℤ pos input_fees)
    ok (keep_amounts, send_amounts)
