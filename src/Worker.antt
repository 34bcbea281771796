-- ===== src/Worker.antt =====
-- internal/worker
pub mod Links
pub mod Filter
pub mod Heartbeat
pub mod Limiter
pub mod Pages
pub mod Process
pub mod Sitemap
