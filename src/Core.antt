-- ===== src/Core.antt =====
-- llauncher/core: the files of the run directory, the audit log, the config store, processes.
pub mod AuditLog
pub mod Files
pub mod Lockfile
pub mod Marker
pub mod Config
pub mod Process
pub mod Kept
pub mod LogRotation
pub mod AgentToken
pub mod ModelHealth
pub mod Settings
pub mod Gpu
pub mod Delegation
