-- ===== src/Url.antt =====
-- internal/urlutil/urlutil.go, and what the program uses of the packages `net/url` and `path`.
pub mod Net
pub mod Path
pub mod Canonical
