-- ===== src/Store/Db.antt =====
-- The database behind internal/store, as the migrations in internal/migrate/migrations set it up:
-- a table is the list of its rows in the order of their insertion, a sequence its next value.
use bytefetch.Prelude.{ℕ, List, [], Bool, any, ◌==◌}
use bytefetch.Store.Rows.{Job, Task, DocumentRow, MappedRow, SeenUrl}

pub record Db : Type 0 where
  pub jobs : List Job
  pub tasks : List Task
  pub documents : List DocumentRow
  pub mapped : List MappedRow
  pub dedupe : List SeenUrl
  pub next_task : ℕ
  pub next_document : ℕ
  pub next_mapped : ℕ

abbrev pub empty_db : Db
empty_db = record {
  jobs = [];
  tasks = [];
  documents = [];
  mapped = [];
  dedupe = [];
  next_task = 1;
  next_document = 1;
  next_mapped = 1;
}

-- The foreign key `job_id REFERENCES jobs(id)`.
unfoldable pub has_job : ℕ → Db → Bool
has_job id db = any (λ j. j.id == id) db.jobs
