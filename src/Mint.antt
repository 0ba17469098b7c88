-- ===== src/Mint.antt =====
-- cashu/mint: the tables, the writes, the checks and the ledger.
pub mod State
pub mod Chains
pub mod Crud
pub mod Quotes
pub mod Read
pub mod Write
pub mod Tables
pub mod Conditions
pub mod Verification
pub mod Ledger
pub mod Lightning
pub mod Melt
pub mod History
pub mod Keysets
