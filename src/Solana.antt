-- ===== src/Solana.antt =====
-- The package solana: Solana as a destination of transfers.
pub mod Address
pub mod Accounts
pub mod Instruction
pub mod Broadcast
