-- ===== src/Types.antt =====
-- The package types: messages, their states, the maps shared by the workers, filters, settings.
pub mod Message
pub mod State
pub mod SequenceMap
pub mod World
pub mod Filter
pub mod Settings
pub mod EvmLog
