-- ===== src/Store/Invariant/Defs.antt =====
-- The invariant of the database.
use bytefetch.Prelude.{ℕ, ◌<◌, ◌≡◌, ◌≢◌, List, true, any, ◌==◌, All, AllPairs, arith}
use bytefetch.Store.Rows.{Job, Task, DocumentRow, MappedRow}
use bytefetch.Store.Db.{Db, empty_db}

-- The foreign key: the job is there.
abbrev pub Owned : List Job → ℕ → Type 0
Owned jobs id = any (λ j. j.id == id) jobs ≡ true

-- `UNIQUE(job_id, final_url)`
abbrev pub SameKey : Task → Task → Type 0
SameKey t u = (t.job_id ≡ u.job_id) × (t.final_url ≡ u.final_url)

-- Tasks stand in the order of their ids, and no two have one key.
abbrev pub Apart : Task → Task → Type 0
Apart t u = (t.id < u.id) × ¬ SameKey t u

abbrev pub TasksValid : List Job → ℕ → List Task → Type 0
TasksValid jobs next tasks =
    AllPairs Apart tasks × All (λ t. (t.id < next) × Owned jobs t.job_id) tasks

abbrev pub DocumentsValid : List Job → ℕ → List DocumentRow → Type 0
DocumentsValid jobs next rows =
    AllPairs (λ r s. r.id < s.id) rows
    × All (λ r. (0 < r.id) × (r.id < next) × Owned jobs r.job_id) rows

abbrev pub MappedValid : List Job → ℕ → List MappedRow → Type 0
MappedValid jobs next rows =
    AllPairs (λ r s. r.id < s.id) rows
    × All (λ r. (0 < r.id) × (r.id < next) × Owned jobs r.job_id) rows

pub record IsValid (db : Db) : Type 0 where
  pub jobs_distinct : AllPairs (λ j l. j.id ≢ l.id) db.jobs
  pub tasks_valid : TasksValid db.jobs db.next_task db.tasks
  pub documents_valid : DocumentsValid db.jobs db.next_document db.documents
  pub mapped_valid : MappedValid db.jobs db.next_mapped db.mapped
  pub dedupe_distinct : AllPairs (λ s t. s.canonical_url ≢ t.canonical_url) db.dedupe
  pub next_positive : (0 < db.next_document) × (0 < db.next_mapped)

pub empty_db-IsValid : IsValid empty_db
empty_db-IsValid = record {
  jobs_distinct = tt;
  tasks_valid = (tt, tt);
  documents_valid = (tt, tt);
  mapped_valid = (tt, tt);
  dedupe_distinct = tt;
  next_positive = (omega arith, omega arith);
}
