-- ===== src/Cmd.antt =====
-- The package cmd: the processing pipeline, the configuration and the API.
pub mod AppState
pub mod Process
pub mod Worker
pub mod Validation
pub mod Setup
pub mod Start
pub mod Api
