-- ===== src/Ethereum.antt =====
-- The package ethereum: the listener, the broadcaster and the address check of an EVM chain.
pub mod Flush
pub mod History
pub mod Stream
pub mod Broadcast
pub mod Caller
pub mod Listener
pub mod Sessions
