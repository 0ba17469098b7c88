-- ===== src/Mint/Ledger/Promise.antt =====
-- The first loop of `_sign_blinded_messages` of cashu/mint/ledger.py, which computes the blind
-- signatures and stores nothing.
use nutshell.Base.{ℤ, String, ◌==◌, List}
use nutshell.Core.Errors.{transaction_error, value_error}
use nutshell.Core.Proofs.{BlindedMessage, BlindedSignature}
use nutshell.Core.Result.{Result, ok, ◌>>=◌, ◌>>◌, require, or_raise, get, map_result}
use nutshell.Mint.State.{private_key}
use nutshell.Mint.Verification.{Env}

-- A promise that is computed and not stored yet.
pub record Computed : Type 0 where
  pub keyset_id : String
  pub B_ : String
  pub amount : ℤ
  pub C_ : String
  pub dleq : String × String

abbrev computed_of : BlindedMessage → String → String × (String × String) → Computed
computed_of output B_ (C_, dleq) = record {
  keyset_id = output.id;
  B_ = B_;
  amount = output.amount;
  C_ = C_;
  dleq = dleq;
}

-- `BlindedSignature(id=…, amount=…, C_=…, dleq=…)`
abbrev pub signature_of : Computed → BlindedSignature
signature_of c = record { id = c.keyset_id; amount = c.amount; C_ = c.C_; dleq = c.dleq }

module _ (env : Env) where
  open env use {keysets, curve}

  unfoldable pub compute_promise : BlindedMessage → Result Computed
  compute_promise output = do
    B_ ← or_raise (curve.parse_point output.B_) value_error
    keyset ← or_raise (get output.id keysets) (transaction_error "keyset not found")
    require (output.id == keyset.id) (transaction_error "keyset id does not match output id")
    require keyset.active (transaction_error "keyset is not active")
    key ← private_key output.amount keyset.private_keys
    ok (computed_of output B_ (curve.step2_bob B_ key))

  unfoldable pub compute_promises : List BlindedMessage → Result (List Computed)
  compute_promises = map_result compute_promise
