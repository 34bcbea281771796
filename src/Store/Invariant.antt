-- ===== src/Store/Invariant.antt =====
-- What the constraints of the migrations ask of the tables: distinct ids, one task for each job and
-- final URL, and a job for every row that refers to one. The proofs are in the modules below.
mod Defs
pub mod Inserted
pub mod Tasks
pub mod Jobs
pub mod Documents
pub use Defs.*
