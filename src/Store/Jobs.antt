-- ===== src/Store/Jobs.antt =====
-- internal/store/store.go: the statements over the table `jobs`, the counts of a job's tasks, and
-- the end of a job.
use bytefetch.Prelude.{
  ℕ, ◌+◌, Text, codes, Bool, false, not, ◌&&◌, ◌||◌, Option, none, some, List, [], ◌∷◌, ◌++◌, find,
  count_if, update_where, ltb, ◌==◌, if◌then◌else◌,
}
use bytefetch.Json.{Object}
use bytefetch.Exec.{
  Result, ok, err, no_rows, sql_error, pending_tasks, Exec, raise, statement, query, update, ◌>>=◌,
}
use bytefetch.Store.Rows.{
  Job, JobStatus, JobType, Task, TaskStatus, JobStats, task_status_eq, job_status_eq,
}
use bytefetch.Store.Db.{Db, has_job}
use bytefetch.Store.Tasks.{null_if_empty}

unfoldable pub new_job : ℕ → JobType → Object → ℕ → ℕ → ℕ → Job
new_job id type params now expires_at deadline = record {
  id = id;
  status = JobStatus.queued;
  type = type;
  params = params;
  error = none;
  expires_at = some expires_at;
  deadline = some deadline;
  created_at = now;
  updated_at = now;
}

-- `InsertJob`; `id` is what `gen_random_uuid()` returns, and a used one breaks the primary key.
unfoldable pub insert_job_row : ℕ → ℕ → JobType → Object → ℕ → ℕ → Db → Result ℕ × Db
unfolding new_job has_job
insert_job_row id now type params expires_at deadline db =
    if has_job id db then (err sql_error, db) else (
      ok id,
      record db { jobs = db.jobs ++ new_job id type params now expires_at deadline ∷ [] },
    )

unfoldable pub insert_job : ℕ → ℕ → JobType → Object → ℕ → ℕ → Exec ℕ
unfolding insert_job_row
insert_job id now type params expires_at deadline =
    statement (insert_job_row id now type params expires_at deadline)

-- `UPDATE jobs SET f WHERE id = job_id`
unfoldable pub update_job : ℕ → (Job → Job) → Db → Db
update_job job_id f db = record db { jobs = update_where (λ j. j.id == job_id) f db.jobs }

unfoldable pub start_job : ℕ → ℕ → Exec Unit
unfolding update_job
start_job now job_id =
    update (update_job job_id (λ j. record j { status = JobStatus.running; updated_at = now }))

unfoldable pub ended_job : ℕ → JobStatus → Text → Job → Job
ended_job now status msg j = record j {
  status = status;
  error = null_if_empty msg;
  updated_at = now;
}

unfoldable pub update_job_status : ℕ → ℕ → JobStatus → Text → Exec Unit
unfolding update_job ended_job
update_job_status now job_id status msg = update (update_job job_id (ended_job now status msg))

-- `COUNT(*) … WHERE job_id = … AND status = …`
unfoldable pub count_tasks : ℕ → TaskStatus → Db → ℕ
unfolding task_status_eq
count_tasks job_id status db =
    count_if (λ t. t.job_id == job_id && task_status_eq t.status status) db.tasks

unfoldable pub pending_task_counts : ℕ → Exec (ℕ × ℕ)
unfolding count_tasks
pending_task_counts job_id =
    query
      (λ db. (count_tasks job_id TaskStatus.queued db, count_tasks job_id TaskStatus.processing db))

unfoldable pub has_failed_tasks : ℕ → Exec Bool
unfolding count_tasks
has_failed_tasks job_id = query (λ db. ltb 0 (count_tasks job_id TaskStatus.failed db))

unfoldable pub task_count : ℕ → Exec ℕ
task_count job_id = query (λ db. count_if (λ t. t.job_id == job_id) db.tasks)

abbrev pub final_status : Bool → JobStatus
final_status failed = if failed then JobStatus.completed_with_errors else JobStatus.completed

-- `FinishJob`
unfoldable pub finish_job : ℕ → ℕ → Exec Unit
finish_job now job_id = do
  counts ← pending_task_counts job_id
  if ltb 0 (counts.0 + counts.1) then raise pending_tasks else do
    failed ← has_failed_tasks job_id
    update_job_status now job_id (final_status failed) []

-- `expires_at IS NOT NULL AND expires_at < now()`
unfoldable pub past : ℕ → Option ℕ → Bool
past now none = false
past now (some t) = ltb t now

unfoldable pub is_settled : JobStatus → Bool
unfolding job_status_eq
is_settled s =
    job_status_eq s JobStatus.cancelled
    || job_status_eq s JobStatus.completed
    || job_status_eq s JobStatus.completed_with_errors

unfoldable pub cancel_expired_rows : ℕ → List Job → List Job
unfolding past is_settled
cancel_expired_rows now =
    update_where (λ j. past now j.expires_at && not (is_settled j.status))
      (λ j. record j {
        status = JobStatus.cancelled;
        error = some (codes "expired");
        updated_at = now;
      })

unfoldable pub cancel_expired_jobs : ℕ → Exec Unit
unfolding cancel_expired_rows
cancel_expired_jobs now = update (λ db. record db { jobs = cancel_expired_rows now db.jobs })

abbrev pub found_job : Db → Option Job → Result Job × Db
found_job db none = (err no_rows, db)
found_job db (some j) = (ok j, db)

unfoldable pub get_job_row : ℕ → Db → Result Job × Db
get_job_row job_id db = found_job db (find (λ j. j.id == job_id) db.jobs)

unfoldable pub get_job : ℕ → Exec Job
unfolding get_job_row
get_job job_id = statement (get_job_row job_id)

-- `COALESCE(SUM(attempts), 0)` over a job's tasks.
unfoldable pub sum_attempts : ℕ → List Task → ℕ
sum_attempts job_id [] = 0
sum_attempts job_id (t ∷ ts) =
    (if t.job_id == job_id then t.attempts else 0) + sum_attempts job_id ts

unfoldable pub stats_of : ℕ → Db → JobStats
unfolding count_tasks sum_attempts
stats_of job_id db = record {
  queued = count_tasks job_id TaskStatus.queued db;
  processing = count_tasks job_id TaskStatus.processing db;
  done = count_tasks job_id TaskStatus.done db;
  failed = count_tasks job_id TaskStatus.failed db;
  skipped = count_tasks job_id TaskStatus.skipped db;
  total = count_if (λ t. t.job_id == job_id) db.tasks;
  attempts = sum_attempts job_id db.tasks;
}

unfoldable pub job_stats : ℕ → Exec JobStats
unfolding stats_of
job_stats job_id = query (stats_of job_id)
