-- ===== src/Store/Tasks.antt =====
-- internal/store/store.go: the statements over the table `crawl_tasks`. `now` is the time at which
-- a statement runs, by the clock that the database and its clients share.
use bytefetch.Prelude.{
  ℕ, suc, ◌+◌, ◌-◌, Text, is_empty, same, Bool, true, not, ◌&&◌, ◌||◌, Option, none, some, List, [],
  ◌∷◌, ◌++◌, any, filter, update_where, ltb, leb, ◌==◌, if◌then◌else◌,
}
use bytefetch.Exec.{Result, ok, err, no_rows, no_such_job, Exec, pure, statement, update, ◌>>◌}
use bytefetch.Store.Rows.{Task, TaskStatus, NewTask, task_status_eq}
use bytefetch.Store.Db.{Db, has_job}

-- The conflict target of the insert, `UNIQUE(job_id, final_url)`.
unfoldable pub same_key : ℕ → Text → Task → Bool
same_key job_id url t = t.job_id == job_id && same t.final_url url

unfoldable pub new_row : ℕ → ℕ → NewTask → ℕ → Task
new_row id job_id t now = record {
  id = id;
  job_id = job_id;
  requested_url = t.requested_url;
  final_url = t.final_url;
  depth = t.depth;
  status = t.status;
  error = none;
  processing_started_at = none;
  heartbeat_at = none;
  attempts = 0;
  created_at = now;
  updated_at = now;
}

-- `INSERT … ON CONFLICT (job_id, final_url) DO NOTHING`. The sequence moves on also where the row
-- is not inserted; the foreign key is checked on the row that is.
unfoldable pub insert_task_row : ℕ → ℕ → NewTask → Db → Result Unit × Db
unfolding same_key new_row has_job
insert_task_row now job_id t db =
    let moved : Db = record db { next_task = suc db.next_task } in
    if any (same_key job_id t.final_url) db.tasks
    then (ok tt, moved)
    else if has_job job_id db
    then (ok tt, record moved { tasks = db.tasks ++ new_row db.next_task job_id t now ∷ [] })
    else (err no_such_job, db)

-- `InsertTasks`: a loop of single inserts, which stops at the first error. (`PrepareContext` is one
-- more trip to the database, and changes nothing.)
unfoldable pub insert_task_rows : ℕ → ℕ → List NewTask → Exec Unit
insert_task_rows now job_id [] = pure tt
insert_task_rows now job_id (t ∷ ts) =
    statement (insert_task_row now job_id t) >> insert_task_rows now job_id ts

unfoldable pub insert_tasks : ℕ → ℕ → List NewTask → Exec Unit
unfolding insert_task_rows
insert_tasks now job_id tasks = do update (λ db. db); insert_task_rows now job_id tasks

-- `heartbeat_at IS NULL OR heartbeat_at < threshold`
unfoldable pub lease_over : ℕ → Option ℕ → Bool
lease_over threshold none = true
lease_over threshold (some beat) = ltb beat threshold

-- The rows that `DequeueTask` may claim: `locked` are those that another statement holds, which
-- `SKIP LOCKED` passes over.
unfoldable pub claimable : ℕ → (ℕ → Bool) → Task → Bool
unfolding lease_over task_status_eq
claimable threshold locked t =
    not (locked t.id)
    && (task_status_eq t.status TaskStatus.queued || task_status_eq t.status TaskStatus.processing)
    && (task_status_eq t.status TaskStatus.queued || lease_over threshold t.heartbeat_at)

unfoldable pub lesser : Task → Option Task → Option Task
lesser t none = some t
lesser t (some u) = if leb t.id u.id then some t else some u

-- `ORDER BY id LIMIT 1`
unfoldable pub least : List Task → Option Task
unfolding lesser
least [] = none
least (t ∷ ts) = lesser t (least ts)

-- `COALESCE(processing_started_at, now())`
coalesce : Option ℕ → ℕ → Option ℕ
coalesce none now = some now
coalesce (some t) now = some t

unfoldable pub claimed : ℕ → Task → Task
unfolding coalesce
claimed now t = record t {
  status = TaskStatus.processing;
  processing_started_at = coalesce t.processing_started_at now;
  heartbeat_at = some now;
  updated_at = now;
}

unfoldable pub claim : ℕ → Db → Option Task → Result Task × Db
unfolding claimed
claim now db none = (err no_rows, db)
claim now db (some t) = (
  ok (claimed now t),
  record db { tasks = update_where (λ u. u.id == t.id) (claimed now) db.tasks },
)

-- `DequeueTask`; a threshold before time 0 is 0, which no heartbeat precedes either.
unfoldable pub dequeue_row : ℕ → ℕ → (ℕ → Bool) → Db → Result Task × Db
unfolding claim claimable least
dequeue_row now lease_timeout locked db =
    claim now db (least (filter (claimable (now - lease_timeout) locked) db.tasks))

unfoldable pub dequeue_task : ℕ → ℕ → (ℕ → Bool) → Exec Task
unfolding dequeue_row
dequeue_task now lease_timeout locked = statement (dequeue_row now lease_timeout locked)

-- `NOT EXISTS (SELECT 1 … WHERE job_id = target.job_id AND final_url = url AND id <> target.id)`
unfoldable pub url_is_free : Text → List Task → Task → Bool
url_is_free url tasks target =
    not (
      any (λ u. u.job_id == target.job_id && same u.final_url url && not (u.id == target.id)) tasks)

unfoldable pub update_final_url_rows : ℕ → ℕ → Text → List Task → List Task
unfolding url_is_free
update_final_url_rows now task_id url tasks =
    update_where (λ t. t.id == task_id && not (same t.final_url url) && url_is_free url tasks t)
      (λ t. record t { final_url = url; updated_at = now }) tasks

unfoldable pub update_task_final_url : ℕ → ℕ → Text → Exec Unit
unfolding update_final_url_rows
update_task_final_url now task_id url =
    update (λ db. record db { tasks = update_final_url_rows now task_id url db.tasks })

-- `UPDATE crawl_tasks SET f WHERE id = task_id`
unfoldable pub update_task : ℕ → (Task → Task) → Db → Db
update_task task_id f db = record db { tasks = update_where (λ t. t.id == task_id) f db.tasks }

abbrev pub beaten : ℕ → Task → Task
beaten now t = record t { heartbeat_at = some now; updated_at = now }

unfoldable pub update_task_heartbeat : ℕ → ℕ → Exec Unit
unfolding update_task
update_task_heartbeat now task_id = update (update_task task_id (beaten now))

unfoldable pub completed_task : ℕ → Task → Task
completed_task now t = record t { status = TaskStatus.done; updated_at = now }

unfoldable pub complete_task : ℕ → ℕ → Exec Unit
unfolding update_task completed_task
complete_task now task_id = update (update_task task_id (completed_task now))

unfoldable pub failed_task : ℕ → Text → Task → Task
failed_task now reason t = record t {
  status = TaskStatus.failed;
  error = some reason;
  attempts = t.attempts + 1;
  updated_at = now;
}

unfoldable pub fail_task : ℕ → ℕ → Text → Exec Unit
unfolding update_task failed_task
fail_task now task_id reason = update (update_task task_id (failed_task now reason))

-- `NULLIF(s, '')`
abbrev pub null_if_empty : Text → Option Text
null_if_empty s = if is_empty s then none else some s

unfoldable pub retried_task : ℕ → Text → Task → Task
retried_task now msg t = record t {
  status = TaskStatus.queued;
  error = null_if_empty msg;
  attempts = t.attempts + 1;
  heartbeat_at = none;
  updated_at = now;
}

unfoldable pub retry_task : ℕ → ℕ → Text → Exec Unit
unfolding update_task retried_task
retry_task now task_id msg = update (update_task task_id (retried_task now msg))
