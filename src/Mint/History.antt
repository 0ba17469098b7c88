-- ===== src/Mint/History.antt =====
-- The life of the mint: the requests of cashu/mint/ledger.py as steps, and what every run of them keeps.
pub mod Grows
pub mod Writes
pub mod Parts
pub mod Melts
pub mod Pays
pub mod Quotes
pub mod Steps
