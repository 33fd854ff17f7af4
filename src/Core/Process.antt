-- ===== src/Core/Process.antt =====
-- llauncher/core/process.py: the llama-server processes.
pub mod Command
pub mod Scan
pub mod Roster
pub mod Ports
pub mod Start
pub mod Stop
pub mod Wait
