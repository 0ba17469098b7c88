-- ===== src/Mint/Melt.antt =====
-- Melting: `get_melt_quote` and `melt` of cashu/mint/ledger.py.
pub mod Finish
pub mod Refresh
pub mod Checks
pub mod Pay
pub mod Finished
pub mod Checked
pub mod Melted
pub mod Failed
pub mod Released
pub mod Stranded
pub mod Asked
pub mod Answered
pub mod Ending
pub mod Unlock
