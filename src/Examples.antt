-- ===== src/Examples.antt =====
-- The theorems at concrete inputs, and the data for them.
mod Samples
mod Types
mod Filters
mod Circle
mod Pipeline
mod Chains
mod Noble
mod Listeners
mod Solana
mod Setup
mod Cosmos
mod Routines
mod Run
