-- ===== src/Tests/Amounts.antt =====
-- Amounts, fees and blank outputs.
use Prim.Native.Nat.{ℕ, ◌+◌, ◌*◌, ◌≤◌, ◌<◌}
use nutshell.Base.{pos, ◌+ℤ◌, ◌-ℤ◌, List, [], ◌∷◌, ◌≡◌, refl, All, length, arith}
use nutshell.Core.Proofs.{Proof, BlindedMessage, sum_proofs, sum_outputs}
use nutshell.Core.Result.{ok, map_result}
use nutshell.Core.Split.{amount_split, number_of_blank_outputs}
use nutshell.Core.Split.Sum.{sum, RisingPowers, amount_split-binary}
use nutshell.Core.Split.Blank.{blank_outputs_suffice}
use nutshell.Mint.Verification.{
  get_fees_for_proofs, fee_of, sum_ppk, verify_equation_balanced, verify_units_match, verify_amount,
}
use nutshell.Mint.Verification.Balance.{
  IsAmount, get_fees_for_proofs-rounds_up, verify_equation_balanced-balances,
}
use nutshell.Tests.World.{env, four, two, output}

amount_split-binary_example :
    (sum (amount_split (pos 13)) ≡ 13) × RisingPowers 0 (amount_split (pos 13))
amount_split-binary_example = amount_split-binary 13

blank_outputs_suffice_example : length (amount_split (pos 7)) ≤ number_of_blank_outputs 8
blank_outputs_suffice_example = blank_outputs_suffice 7 8 (omega arith)

two_proofs_fee : get_fees_for_proofs env (four ∷ two ∷ []) ≡ ok 1
unfolding get_fees_for_proofs
two_proofs_fee = refl

get_fees_for_proofs-rounds_up_example :
    (fees : List ℕ) × (map_result (λ (p : Proof). fee_of env p.id) (four ∷ two ∷ []) ≡ ok fees)
    × (sum_ppk fees ≤ 1 * 1000)
    × (1 * 1000 < sum_ppk fees + 1000)
get_fees_for_proofs-rounds_up_example =
    get_fees_for_proofs-rounds_up env (four ∷ two ∷ []) 1 two_proofs_fee

abbrev outputs : List BlindedMessage
outputs = output 4 "b" ∷ output 1 "c" ∷ []

balanced : verify_equation_balanced env (four ∷ two ∷ []) outputs ≡ ok tt
unfolding verify_equation_balanced get_fees_for_proofs verify_units_match verify_amount ◌+ℤ◌ ◌-ℤ◌
balanced = refl

verify_equation_balanced-balances_example :
    (fee : ℕ) × (get_fees_for_proofs env (four ∷ two ∷ []) ≡ ok fee)
    × (sum_outputs outputs +ℤ pos fee ≡ sum_proofs (four ∷ two ∷ []))
    × All (λ (p : Proof). IsAmount env p.amount) (four ∷ two ∷ [])
    × All (λ (o : BlindedMessage). IsAmount env o.amount) outputs
verify_equation_balanced-balances_example =
    verify_equation_balanced-balances env (four ∷ two ∷ []) outputs balanced
