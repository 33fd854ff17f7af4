-- ===== src/Agent.antt =====
-- The HTTP agent.
pub mod Routing
pub mod Middleware
pub mod FooterCache
pub mod Server
