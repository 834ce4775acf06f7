-- ===== src/Agent.antt =====
-- src/agent: the background process that clients connect to.
pub mod Connections
pub mod Idle
pub mod Handler
pub mod Tests
