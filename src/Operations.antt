-- ===== src/Operations.antt =====
-- llauncher/operations: the verbs that the agent, the CLI and the UI call.
pub mod Preflight
pub mod Start
pub mod Swap
pub mod Stop
pub mod Delete
pub mod Reconcile
pub mod Orphan
pub mod Validate
