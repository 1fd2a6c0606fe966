-- ===== src/Filters.antt =====
-- The package filters: the plugins that decide which messages are relayed.
pub mod Route
pub mod DestinationCaller
pub mod LowTransfer
pub mod Whitelist
