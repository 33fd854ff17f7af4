-- ===== src/Util.antt =====
-- llauncher/util.
pub mod Cache
