-- ===== src/Server.antt =====
-- src/server.rs.
pub mod Config
pub mod Task
pub mod Handle
pub mod Session
pub mod Connection
pub mod Serve
pub mod System
