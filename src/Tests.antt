-- ===== src/Tests.antt =====
-- Runs of the model at concrete inputs.
mod Spine
mod Engine
mod Scripts
mod Catalog
mod Config
mod Daemon
mod Surface
mod Verdict
