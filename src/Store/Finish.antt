-- ===== src/Store/Finish.antt =====
-- How a job ends, and what its statistics add up to.
use bytefetch.Prelude.{
  ℕ, ◌+◌, ◌<◌, ◌≤◌, ◌≡◌, refl, ap, ◌⊎◌, inl, inr, Bool, true, false, ◌&&◌, List, [], ◌∷◌, count_if,
  ltb, ltb→le, ltb→lt, ◌==◌, if◌then◌else◌, Bool-cases, All, In, All-In, arith,
}
use bytefetch.Exec.{World, Result, ok, err, pending_tasks, ◌>>=◌, query, update}
use bytefetch.Store.Rows.{Task, TaskStatus, JobStatus, task_status_eq}
use bytefetch.Store.Db.{Db}
use bytefetch.Store.Jobs.{
  count_tasks, pending_task_counts, has_failed_tasks, finish_job, update_job, ended_job,
  update_job_status, stats_of,
}

-- A world in which no statement fails.
abbrev pub quiet : Db → World
quiet db = record { db = db; faults = [] }

count_if_zero :
    {A : Type 0} (p : A → Bool) (xs : List A) → count_if p xs ≡ 0 → All (λ x. p x ≡ false) xs
count_if_zero p [] h = tt
count_if_zero p (x ∷ xs) h = ground (arith, count_if_zero p xs)

count_if_pos :
    {A : Type 0} (p : A → Bool) (xs : List A) → 0 < count_if p xs → (x : A) × In x xs × (p x ≡ true)
count_if_pos p [] h = absurd (omega arith)
count_if_pos p (x ∷ xs) h = elim (Bool-cases (p x)) [
  | inl hit ↦ (x, inl refl, hit)
  | inr miss ↦ let (y, m, e) = count_if_pos p xs (ground arith) in (y, inr m, e)
]

task_status_eq_iff : (s t : TaskStatus) → task_status_eq s t ≡ true → s ≡ t
unfolding task_status_eq
task_status_eq_iff s t h = ground arith

task_status_eq_refl : (s : TaskStatus) → task_status_eq s s ≡ true
unfolding task_status_eq
task_status_eq_refl s = ground arith

-- A task of the job has the status.
abbrev pub SomeTask : ℕ → TaskStatus → Db → Type 0
SomeTask job_id s db = (t : Task) × In t db.tasks × (t.job_id ≡ job_id) × (t.status ≡ s)

count_tasks-pos :
    (job_id : ℕ) (s : TaskStatus) (db : Db) → 0 < count_tasks job_id s db → SomeTask job_id s db
unfolding count_tasks
count_tasks-pos job_id s db h =
    let (t, m, e) =
      count_if_pos (λ t. t.job_id == job_id && task_status_eq t.status s) db.tasks h in
    (t, m, ground arith, task_status_eq_iff t.status s (ground arith))

count_tasks-zero :
    (job_id : ℕ) (s : TaskStatus) (db : Db) → count_tasks job_id s db ≡ 0 → ¬ SomeTask job_id s db
unfolding count_tasks
count_tasks-zero job_id s db h (t, m, own, e) =
    let miss = All-In _ db.tasks (count_if_zero _ db.tasks h) m in
    ground (arith, task_status_eq_refl s, ap (λ (u : TaskStatus). task_status_eq u s) e)

-- What `FinishJob` does to a database on which no statement fails.
pub data Finish (now job_id : ℕ) (db : Db) (r : Result Unit × World) : Type 0 where
  pending :
      SomeTask job_id TaskStatus.queued db ⊎ SomeTask job_id TaskStatus.processing db
      → r ≡ (err pending_tasks, quiet db)
      → Finish now job_id db r
  ended :
      (status : JobStatus)
      → ¬ SomeTask job_id TaskStatus.queued db
      → ¬ SomeTask job_id TaskStatus.processing db
      → ((status ≡ JobStatus.completed_with_errors) × SomeTask job_id TaskStatus.failed db)
        ⊎ ((status ≡ JobStatus.completed) × ¬ SomeTask job_id TaskStatus.failed db)
      → r ≡ (ok tt, quiet (update_job job_id (ended_job now status []) db))
      → Finish now job_id db r

some_pending :
    (job_id : ℕ) (db : Db)
    → 0 < count_tasks job_id TaskStatus.queued db + count_tasks job_id TaskStatus.processing db
    → SomeTask job_id TaskStatus.queued db ⊎ SomeTask job_id TaskStatus.processing db
some_pending job_id db h = elim (Bool-cases (ltb 0 (count_tasks job_id TaskStatus.queued db))) [
  | inl yes_queued ↦ inl (count_tasks-pos job_id TaskStatus.queued db (ltb→lt 0 _ yes_queued))
  | inr no_queued ↦ inr (count_tasks-pos job_id TaskStatus.processing db (ground arith))
]

-- A job ends when no task of it is queued or being processed, and only then: with errors if a task
-- of it has failed, else without; until then its row is left alone, and the caller is told so.
pub finish_job-Finish :
    (now job_id : ℕ) (db : Db) → Finish now job_id db (finish_job now job_id (quiet db))
unfolding finish_job ◌>>=◌ pending_task_counts has_failed_tasks update_job_status query update
finish_job-Finish now job_id db = elim (Bool-cases (ltb 0 (queued_tasks + processing_tasks))) [
  | inl busy ↦ pending (some_pending job_id db (ltb→lt 0 _ busy)) (rw busy)
  | inr idle ↦
      let none_left : queued_tasks + processing_tasks ≤ 0 = ltb→le 0 _ idle in
      let no_queued = count_tasks-zero job_id TaskStatus.queued db (omega arith) in
      let no_processing = count_tasks-zero job_id TaskStatus.processing db (omega arith) in
      elim (Bool-cases (ltb 0 (count_tasks job_id TaskStatus.failed db))) [
        | inl errors ↦
            ended JobStatus.completed_with_errors no_queued no_processing
              (inl (refl, count_tasks-pos job_id TaskStatus.failed db (ltb→lt 0 _ errors)))
              (rw (idle, errors))
        | inr clean ↦
            ended JobStatus.completed no_queued no_processing
              (inr (refl, count_tasks-zero job_id TaskStatus.failed db (ground arith)))
              (rw (idle, clean))
      ]
]
  where
    queued_tasks : ℕ
    queued_tasks = count_tasks job_id TaskStatus.queued db

    processing_tasks : ℕ
    processing_tasks = count_tasks job_id TaskStatus.processing db

one_status :
    (job_id : ℕ) (t : Task)
    → (if t.job_id == job_id && task_status_eq t.status TaskStatus.queued then 1 else 0)
        + (if t.job_id == job_id && task_status_eq t.status TaskStatus.processing then 1 else 0)
        + (if t.job_id == job_id && task_status_eq t.status TaskStatus.done then 1 else 0)
        + (if t.job_id == job_id && task_status_eq t.status TaskStatus.failed then 1 else 0)
        + (if t.job_id == job_id && task_status_eq t.status TaskStatus.skipped then 1 else 0)
      ≡ (if t.job_id == job_id then 1 else 0)
unfolding task_status_eq
one_status job_id t = ground arith

module _ (job_id : ℕ) where
  abbrev having : TaskStatus → List Task → ℕ
  having s = count_if (λ t. t.job_id == job_id && task_status_eq t.status s)

  statuses_total :
      (ts : List Task)
      → having TaskStatus.queued ts
          + having TaskStatus.processing ts
          + having TaskStatus.done ts
          + having TaskStatus.failed ts
          + having TaskStatus.skipped ts
        ≡ count_if (λ t. t.job_id == job_id) ts
  statuses_total [] = omega arith
  statuses_total (t ∷ ts) = omega (arith, one_status job_id t, statuses_total ts)

-- The five counts of a job's statistics add up to its total: every task is counted once.
pub stats_of-total :
    (job_id : ℕ) (db : Db)
    → let s = stats_of job_id db in
      s.queued + s.processing + s.done + s.failed + s.skipped ≡ s.total
unfolding stats_of
stats_of-total job_id db = statuses_total job_id db.tasks
