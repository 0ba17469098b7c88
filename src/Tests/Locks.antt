-- ===== src/Tests/Locks.antt =====
-- Signatures under the locks of the small mint.

use nutshell.Base.{pos, ◌<ℤ◌, String, true, none, some, List, [], ◌∷◌, map, ◌≡◌, refl}
use nutshell.Core.Proofs.{Proof, BlindedMessage}
use nutshell.Core.Result.{ok}
use nutshell.Core.Secret.{
  int_or, get_tag, get_tag_all, get_tag_int, n_sigs, locktime, secret_eq, Secret,
}
use nutshell.Mint.Conditions.{verify_p2pk_signatures, threshold_met, count_valid, take_valid}
use nutshell.Mint.Conditions.Threshold.{IsSetOrder, IsSigned, verify_p2pk_signatures-IsSigned}
use nutshell.Mint.Conditions.SigAll.{
  inputs_require_sigall, check_at_least_one_sig_all, verify_all_secrets_equal_and_return,
  verify_lock, verify_sigall_spending_conditions, verify_input_output_spending_conditions,
}
use nutshell.Mint.Conditions.SigAllSigned.{IsSignedBy, whole, verify_input_output-IsSignedBy}
use nutshell.Tests.World.{script, proof_of, output}

list_order : IsSetOrder (λ xs. xs)
list_order xs d = (d, λ x h. h)

abbrev keys : List String
keys = "alice" ∷ "bob" ∷ "carol" ∷ []

abbrev signatures : List String
signatures = "bob:text" ∷ "alice:text" ∷ []

two_sign : verify_p2pk_signatures script "text" keys signatures (pos 2) ≡ ok true
unfolding verify_p2pk_signatures threshold_met count_valid take_valid
two_sign = refl

verify_p2pk_signatures-IsSigned_example :
    (true ≡ true)
    × (pos 0 <ℤ int_or (some (pos 2)) (pos 1))
    × IsSigned script list_order "text"
        (map script.lower keys)
        (map script.lower signatures)
        (int_or (some (pos 2)) (pos 1))
verify_p2pk_signatures-IsSigned_example =
    verify_p2pk_signatures-IsSigned script list_order "text" keys signatures (pos 2) true two_sign

abbrev all_locked : List Proof
all_locked = proof_of 4 "all" "fourall" (some "v") ∷ []

abbrev outputs : List BlindedMessage
outputs = output 3 "b" ∷ []

all_sign : verify_input_output_spending_conditions script all_locked outputs ≡ ok true
unfolding verify_input_output_spending_conditions verify_sigall_spending_conditions
    inputs_require_sigall check_at_least_one_sig_all verify_all_secrets_equal_and_return verify_lock
    threshold_met count_valid take_valid get_tag get_tag_all get_tag_int n_sigs locktime secret_eq
all_sign = refl

abbrev all_secret : Secret
all_secret = record { kind = "P2PK"; data_ = "alice"; tags = ("sigflag" ∷ "SIG_ALL" ∷ []) ∷ [] }

all_require : inputs_require_sigall script all_locked ≡ true
unfolding inputs_require_sigall get_tag
all_require = refl

all_equal : verify_all_secrets_equal_and_return script all_locked ≡ ok all_secret
unfolding verify_all_secrets_equal_and_return secret_eq
all_equal = refl

all_tags :
    (get_tag_all "pubkeys" all_secret.tags ≡ ok [])
    × (n_sigs script.parse_int all_secret ≡ ok (pos 1))
    × (locktime script.parse_int all_secret ≡ ok none)
unfolding get_tag get_tag_all get_tag_int n_sigs locktime
all_tags = (refl, refl, refl)

verify_input_output-IsSignedBy_example :
    IsSignedBy script list_order all_locked
      (whole all_locked outputs)
      ("alice" ∷ [])
      (int_or (some (pos 1)) (pos 1))
    × (true ≡ true)
verify_input_output-IsSignedBy_example =
    let (tags, sigs, time) = all_tags in
    verify_input_output-IsSignedBy script list_order all_locked outputs true all_secret none (pos 1)
      [] all_require all_equal refl tags sigs time refl all_sign
