-- ===== src/Core/Errors.antt =====
-- The exceptions of cashu/core/errors.py, with the built-in ones that the mint's code raises.
-- A text that the code formats values into is kept without those values.
use nutshell.Base.{ℕ, String}

pub data Error : Type 0 where
  -- `CashuError` and its subclasses
  cashu_error : String → Error
  not_allowed : String → Error
  invalid_proofs : Error
  transaction_error : String → Error
  proofs_already_spent : Error
  proofs_are_pending : Error
  outputs_already_signed : Error
  outputs_are_pending : Error
  secret_too_long : Error
  witness_too_long : Error
  no_secret_in_proofs : Error
  transaction_unit_error : String → Error
  duplicate_inputs : Error
  duplicate_outputs : Error
  multiple_units : String → Error
  unit_mismatch : Error
  quote_not_paid : Error
  quote_already_issued : Error
  quote_signature_invalid : Error
  lightning_payment_failed : Error
  lightning_error : String → Error
  transaction_amount_exceeds_limit : String → Error
  -- `Exception`, `KeyError`, `ValueError`, `IndexError`, `AssertionError`
  exception : String → Error
  key_error : Error
  value_error : Error
  index_error : Error
  assertion_error : Error
  -- a database constraint that an INSERT would break
  integrity_error : Error

-- The codes that a client receives; 0 where the class or the constructor sets none.
pub code : Error → ℕ
code (cashu_error _) = 0
code (not_allowed _) = 10000
code invalid_proofs = 10001
code (transaction_error _) = 11000
code proofs_already_spent = 11001
code proofs_are_pending = 11002
code outputs_already_signed = 11003
code outputs_are_pending = 11004
code secret_too_long = 11003
code witness_too_long = 11004
code no_secret_in_proofs = 10001
code (transaction_unit_error _) = 11009
code duplicate_inputs = 11007
code duplicate_outputs = 11008
code (multiple_units _) = 11009
code unit_mismatch = 11010
code quote_not_paid = 20001
code quote_already_issued = 20002
code quote_signature_invalid = 20008
code lightning_payment_failed = 20004
code (lightning_error _) = 20000
code (transaction_amount_exceeds_limit _) = 11006
code _ = 0
