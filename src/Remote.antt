-- ===== src/Remote.antt =====
-- llauncher/remote: the client of other agents, and the registry of them.
pub mod Node
pub mod Registry
pub mod Aggregator
