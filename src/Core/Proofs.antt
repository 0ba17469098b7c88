-- ===== src/Core/Proofs.antt =====
-- Proofs, blinded messages and signatures of cashu/core/base.py, with the fields that the mint
-- reads, and `sum_proofs` of cashu/core/helpers.py.
use nutshell.Base.{ℤ, pos, ◌+ℤ◌, List, [], ◌∷◌, Option, String, ◌==◌, if◌then◌else◌}

pub data ProofSpentState : Type 0 where
  unspent spent pending : ProofSpentState

-- `Y` is the hex point that `Proof.__init__` computes from the secret.
pub record Proof : Type 0 where
  pub id : String
  pub amount : ℤ
  pub secret : String
  pub Y : String
  pub C : String
  pub witness : Option String

pub record BlindedMessage : Type 0 where
  pub id : String
  pub amount : ℤ
  pub B_ : String

-- The DLEQ proof is the pair of its hex texts.
pub record BlindedSignature : Type 0 where
  pub id : String
  pub amount : ℤ
  pub C_ : String
  pub dleq : String × String

-- Python's `sum` of integers.
abbrev pub sum_by {ℓ} : {A : Type ℓ} → (A → ℤ) → List A → ℤ
sum_by f [] = pos 0
sum_by f (x ∷ xs) = f x +ℤ sum_by f xs

abbrev pub sum_proofs : List Proof → ℤ
sum_proofs = sum_by (λ p. p.amount)

abbrev pub sum_outputs : List BlindedMessage → ℤ
sum_outputs = sum_by (λ o. o.amount)

-- The part of a sum that lies in one keyset.
abbrev pub amount_in : String → List Proof → ℤ
amount_in k = sum_by (λ p. if p.id == k then p.amount else pos 0)

abbrev pub outputs_in : String → List BlindedMessage → ℤ
outputs_in k = sum_by (λ o. if o.id == k then o.amount else pos 0)
