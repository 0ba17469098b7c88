-- ===== src/Tests.antt =====
-- The theorems at concrete inputs, and runs of the code.
mod World
mod Swaps
mod Mints
mod Quotes
mod Locks
mod Amounts
mod Melts
mod Histories
mod Wallets
mod Creations
mod Rotations
