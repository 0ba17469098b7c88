-- ===== src/Mint/Verification/Inputs.antt =====
-- `_verify_inputs`: what every input that it accepts has, one by one and together.
use Prim.Native.String.{count}
use nutshell.Base.{
  ℤ, String, Bool, true, some, List, [], ◌∷◌, map, ◌≡◌, ◌≤◌, refl, ap, arith, All, Distinct,
  Distinct-of_length, is_empty, all_of,
}
use nutshell.Core.Errors.{
  Error, transaction_error, assertion_error, value_error, duplicate_inputs, invalid_proofs,
}
use nutshell.Core.Proofs.{Proof}
use nutshell.Core.Result.{
  Result, ok, get, raise_if, require, or_raise, map_result, >>=-eq-ok, >>-eq-ok, or_raise-eq-ok,
  require-eq-ok,
}
use nutshell.Mint.State.{MintKeyset, private_key}
use nutshell.Mint.Tables.{secrets}
use nutshell.Mint.Conditions.{verify_input_spending_conditions}
use nutshell.Mint.Verification.{
  Env, all_checked, verify_amount, verify_secret_criteria, verify_input_witness_criteria,
  verify_proof_bdhke, verify_no_duplicate_proofs, verify_inputs, amount_ok,
}
use nutshell.Mint.Verification.Balance.{IsAmount, verify_amount-IsAmount}

map_result-All :
    {A : Type 0} (f : A → Result Bool) (xs : List A) (bs : List Bool)
    → map_result f xs ≡ ok bs
    → all_of (λ b. b) bs ≡ true
    → All (λ x. f x ≡ ok true) xs
map_result-All f [] bs e h = tt
map_result-All f (x ∷ xs) bs e h =
    let (b, e₁, e₂) = >>=-eq-ok (f x) _ e in
    let (rest, e₃, e₄) = >>=-eq-ok (map_result f xs) _ e₂ in
    ground (arith, e₁, map_result-All f xs rest e₃)

-- `all([…])` passed: every element did.
pub all_checked-All :
    {A : Type 0} (f : A → Result Bool) (xs : List A) (e : Error)
    → all_checked f xs e ≡ ok tt
    → All (λ x. f x ≡ ok true) xs
all_checked-All f xs e h =
    let (bs, e₁, e₂) = >>=-eq-ok (map_result f xs) _ h in
    map_result-All f xs bs e₁ (require-eq-ok _ e e₂)

secrets-map : (ps : List Proof) → map (λ (p : Proof). p.secret) ps ≡ secrets ps
secrets-map [] = refl
secrets-map (p ∷ ps) = ap (λ t. p.secret ∷ t) (secrets-map ps)

-- The mint's key for the proof's amount signed it.
pub record IsSigned (env : Env) (p : Proof) : Type 0 where
  pub keyset : MintKeyset
  pub key : String
  pub C : String
  pub known : get p.id env.keysets ≡ some keyset
  pub keyed : private_key p.amount keyset.private_keys ≡ ok key
  pub point : env.curve.parse_point p.C ≡ some C
  pub verified : env.curve.verify key C p.secret ≡ true

pub record IsAccepted (env : Env) (p : Proof) : Type 0 where
  pub amount : IsAmount env p.amount
  pub short : count p.secret ≤ env.settings.mint_max_secret_length
  pub signed : IsSigned env p
  pub conditions : verify_input_spending_conditions env.script p ≡ ok true

All-both :
    {A : Type 0} {P Q R S T : A → Type 0} (f : (x : A) → P x → Q x → R x → S x → T x) (xs : List A)
    → All P xs
    → All Q xs
    → All R xs
    → All S xs
    → All T xs
All-both f [] p q r s = tt
All-both f (x ∷ xs) p q r s = (f x p.0 q.0 r.0 s.0, All-both f xs p.1 q.1 r.1 s.1)

module _ (env : Env) where
  verify_no_duplicate_proofs-Distinct :
      (ps : List Proof) → verify_no_duplicate_proofs env ps ≡ true → Distinct (secrets ps)
  unfolding verify_no_duplicate_proofs
  verify_no_duplicate_proofs-Distinct ps e =
      rw (← secrets-map ps) (Distinct-of_length _ (ground arith))

  amount_ok-IsAmount : (a : ℤ) → amount_ok env a ≡ ok true → IsAmount env a
  amount_ok-IsAmount a e =
      let (v, e₁, _) = >>=-eq-ok (verify_amount env a) _ e in (verify_amount-IsAmount env a v e₁).0

  verify_secret_criteria-short :
      (p : Proof)
      → verify_secret_criteria env p ≡ ok true
      → count p.secret ≤ env.settings.mint_max_secret_length
  unfolding verify_secret_criteria
  verify_secret_criteria-short p e = ground arith

  verify_proof_bdhke-IsSigned : (p : Proof) → verify_proof_bdhke env p ≡ ok true → IsSigned env p
  unfolding verify_proof_bdhke
  verify_proof_bdhke-IsSigned p e =
      let (m, e₁, e₂) = >>=-eq-ok (or_raise (get p.id env.keysets) assertion_error) _ e in
      let (key, e₃, e₄) = >>=-eq-ok (private_key p.amount m.private_keys) _ e₂ in
      let (C, e₅, e₆) = >>=-eq-ok (or_raise (env.curve.parse_point p.C) value_error) _ e₄ in
      record {
        keyset = m;
        key = key;
        C = C;
        known = or_raise-eq-ok _ _ e₁;
        keyed = e₃;
        point = or_raise-eq-ok _ _ e₅;
        verified = ground arith;
      }

  -- When `verify_inputs` returns, the secrets of the proofs are all different, and each proof has an
  -- amount that is positive and below 2 ^ max_order, a secret of at most the allowed length, a C
  -- that verifies under the key of its keyset for its amount, and a check of its spending conditions
  -- that returned true.
  pub verify_inputs-returns :
      (ps : List Proof)
      → verify_inputs env ps ≡ ok tt
      → All (IsAccepted env) ps × Distinct (secrets ps)
  unfolding verify_inputs
  verify_inputs-returns ps e =
      let (_, e₁) =
        >>-eq-ok (raise_if (is_empty ps) (transaction_error "no proofs provided.")) _ e in
      let (amounts, e₂) =
        >>-eq-ok
          (all_checked (λ (p : Proof). amount_ok env p.amount) ps
            (transaction_error "invalid amount."))
          _ e₁ in
      let (criteria, e₃) =
        >>-eq-ok
          (all_checked (verify_secret_criteria env) ps
            (transaction_error "secrets do not match criteria."))
          _ e₂ in
      let (_, e₄) =
        >>-eq-ok
          (all_checked (verify_input_witness_criteria env) ps
            (transaction_error "input witness data does not match criteria."))
          _ e₃ in
      let (duplicates, e₅) =
        >>-eq-ok (require (verify_no_duplicate_proofs env ps) duplicate_inputs) _ e₄ in
      let (signed, conditions) =
        >>-eq-ok (all_checked (verify_proof_bdhke env) ps invalid_proofs) _ e₅ in
      (
        All-both
            (λ p a s v c. record {
              amount = amount_ok-IsAmount p.amount a;
              short = verify_secret_criteria-short p s;
              signed = verify_proof_bdhke-IsSigned p v;
              conditions = c;
            })
            ps (all_checked-All _ ps _ amounts) (all_checked-All _ ps _ criteria)
            (all_checked-All _ ps _ signed) (all_checked-All _ ps _ conditions),
        verify_no_duplicate_proofs-Distinct ps (require-eq-ok _ _ duplicates),
      )
