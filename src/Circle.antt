-- ===== src/Circle.antt =====
-- The package circle: the client of Circle's attestation service.
pub mod Attestation
pub mod Reattest
pub mod Allowance
