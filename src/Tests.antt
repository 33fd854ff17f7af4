-- ===== src/Tests.antt =====
-- Concrete runs: the theorems at a machine with one model server.
pub mod Machine
pub mod Verbs
pub mod Parts
pub mod Pieces
pub mod Edge
pub mod Peers
pub mod View
pub mod Startup
