-- ===== src/Daemon.antt =====
-- cmd/server-assistant/main.go: the composition root. What `run` builds from a loaded configuration
-- before its goroutines start, and the reload of the knobs.
pub mod Actuator
pub mod Wiring
pub mod Started
pub mod Gate
pub mod Restarts
pub mod Starts
pub mod Probers
