-- ===== src/Config.antt =====
-- internal/config: the typed configuration.
pub mod Checked
pub mod Texts
pub mod Records
pub mod Library
pub mod Subjects
pub mod Blocks
pub mod HarnessBlock
pub mod Validate
pub mod Secrets
pub mod Load
pub mod Sound
pub mod Order
