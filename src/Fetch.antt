-- ===== src/Fetch.antt =====
-- internal/fetch
pub mod Renderer
pub mod Http
