-- ===== src/Core.antt =====
-- The package core (internal/core): the domain types of the monitoring spine, the debouncer and
-- the domain types of the harness.
pub mod Domain
pub mod Debouncer
pub mod Harness
