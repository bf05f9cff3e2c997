-- ===== src/Scripts.antt =====
-- internal/scripts: the registry of scripts that an operator approves by their content.
pub mod Domain
pub mod Store
pub mod Diff
pub mod Registry
pub mod Grants
pub mod Calls
pub mod Gate
pub mod Moves
pub mod Lifecycle
pub mod Execution
pub mod Access
pub mod Audit
pub mod Frame
pub mod Revocation
pub mod Verdict
