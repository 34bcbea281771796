-- ===== src/Server.antt =====
-- internal/server
pub mod Health
pub mod Outputs
pub mod Query
pub mod Paging
pub mod Http
pub mod Request
pub mod Routes
pub mod Seeds
pub mod Validate
