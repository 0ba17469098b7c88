-- ===== src/Tests/Wallets.antt =====
-- A small wallet: what it selects and splits.
use nutshell.Base.{ℕ, ℤ, pos, ◌+ℤ◌, ◌-ℤ◌, true, false, none, List, [], ◌∷◌, ◌≡◌, refl, arith}
use nutshell.Core.Proofs.{Proof, sum_proofs}
use nutshell.Core.Result.{ok}
use nutshell.Core.Split.{amount_split, split_loop, bit_length}
use nutshell.Wallet.State.{Wallet, WalletKeyset, get_fees_for_proofs, get_fees_for_proofs_ppk}
use nutshell.Wallet.Coins.{coinselect, coinselect_on}
use nutshell.Wallet.Selected.{coinselect-returns}
use nutshell.Wallet.Outputs.{
  sum_ℤ, send_fee, split_wallet_state, get_allowed_amounts, determine_output_amounts,
}
use nutshell.Wallet.Kept.{split_wallet_state-sums, determine_output_amounts-conserves}
use nutshell.Tests.World.{four, two, proof_of}

abbrev keyset : WalletKeyset
keyset = record { id = "k"; amounts = pos 8 ∷ pos 1 ∷ pos 2 ∷ pos 4 ∷ []; input_fee_ppk = 100 }

-- One proof of four, and another that is reserved; two of each amount are wanted.
abbrev wallet : Wallet
wallet = record {
  keysets = ("k", keyset) ∷ [];
  keyset_id = "k";
  proofs = (four, false) ∷ (two, true) ∷ [];
  wallet_target_amount_count = 2;
}

abbrev one : Proof
one = proof_of 1 "e" "onee" none

abbrev coins : List Proof
coins = four ∷ one ∷ two ∷ []

select_with_fees : coinselect wallet true coins (pos 3000) ≡ ok (four ∷ [])
unfolding coinselect coinselect_on get_fees_for_proofs_ppk ◌+ℤ◌ ◌-ℤ◌
select_with_fees = refl

coinselect-returns_example :
    (selected : List Proof) × (coinselect wallet true coins (pos 3000) ≡ ok selected)
coinselect-returns_example =
    coinselect-returns wallet true coins (pos 3000) (refl, (refl, (refl, tt)))

split_runs :
    split_wallet_state wallet (pos 13)
    ≡ ok (pos 1 ∷ pos 1 ∷ pos 1 ∷ pos 2 ∷ pos 2 ∷ pos 2 ∷ pos 4 ∷ [])
unfolding split_wallet_state get_allowed_amounts amount_split split_loop bit_length ◌+ℤ◌ ◌-ℤ◌
split_runs = refl

split_wallet_state-sums_example :
    (amounts : List ℤ) × (split_wallet_state wallet (pos 13) ≡ ok amounts)
    × (sum_ℤ amounts ≡ pos 13)
split_wallet_state-sums_example = split_wallet_state-sums wallet keyset (pos 13) refl (omega arith)

-- Three of seven are sent with a fee of one for who receives them; one is the input fee.
determine_runs :
    determine_output_amounts wallet coins (pos 3) true none ≡ ok (pos 1 ∷ pos 1 ∷ [], pos 4 ∷ [])
unfolding determine_output_amounts get_fees_for_proofs get_fees_for_proofs_ppk split_wallet_state
    get_allowed_amounts amount_split split_loop bit_length ◌+ℤ◌ ◌-ℤ◌
determine_runs = refl

determine_output_amounts-conserves_example :
    (fee : ℤ) × (input_fees : ℕ) × (send_fee wallet true none (pos 3) ≡ ok fee)
    × (get_fees_for_proofs wallet coins ≡ ok input_fees)
    × (sum_ℤ (pos 4 ∷ []) ≡ pos 3 +ℤ fee)
    × (sum_ℤ (pos 1 ∷ pos 1 ∷ []) +ℤ sum_ℤ (pos 4 ∷ []) +ℤ pos input_fees ≡ sum_proofs coins)
determine_output_amounts-conserves_example =
    determine_output_amounts-conserves wallet coins (pos 3) true none (pos 1 ∷ pos 1 ∷ [])
      (pos 4 ∷ []) (omega arith) determine_runs

-- With fees included, two proofs of two are not enough for four and a fee, and one of them is selected.
abbrev another : Proof
another = proof_of 2 "f" "twof" none

select_short : coinselect wallet true (two ∷ another ∷ []) (pos 4000) ≡ ok (two ∷ [])
unfolding coinselect coinselect_on get_fees_for_proofs_ppk ◌+ℤ◌ ◌-ℤ◌
select_short = refl
