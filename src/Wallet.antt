-- ===== src/Wallet.antt =====
-- cashu/wallet: how the wallet picks proofs and splits amounts.
pub mod State
pub mod Coins
pub mod Sorted
pub mod Selected
pub mod Enough
pub mod Outputs
pub mod Kept
