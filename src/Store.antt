-- ===== src/Store.antt =====
-- internal/store
pub mod Rows
pub mod Db
pub mod Tasks
pub mod Jobs
pub mod Documents
pub mod Listing
pub mod Invariant
pub mod Claims
pub mod Finish
