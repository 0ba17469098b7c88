-- ===== src/Core.antt =====
-- cashu/core: exceptions, amounts, proofs, quotes and the splitting of amounts.
pub mod Errors
pub mod Result
pub mod Currency
pub mod Quotes
pub mod Proofs
pub mod Split
pub mod Secret
