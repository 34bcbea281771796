-- ===== src/Store/Invariant/Jobs.antt =====
-- The statements over `jobs` keep the invariant.
use bytefetch.Prelude.{
  ℕ, ◌≡◌, ◌≢◌, refl, Text, Bool, false, List, [], ◌∷◌, ◌++◌, any, update_where, ◌==◌, Bool-cases,
  inl, inr, All, AllPairs, All-map, AllPairs-append, AllPairs-map, arith,
}
use bytefetch.Json.{Object}
use bytefetch.Exec.Keeps.{Keeps, keeps_rules, query-Keeps, statement-Keeps, update-Keeps}
use bytefetch.Store.Rows.{Job, JobType, JobStatus}
use bytefetch.Store.Db.{Db, has_job}
use bytefetch.Store.Jobs.{
  insert_job_row, insert_job, update_job, start_job, update_job_status, finish_job,
  cancel_expired_rows, cancel_expired_jobs, pending_task_counts, has_failed_tasks,
}
use bytefetch.Store.Invariant.Defs.{Owned, IsValid}

-- A row keeps its job when the jobs change so that none is lost.
IsValid-of_jobs :
    {db : Db} (jobs : List Job)
    → IsValid db
    → AllPairs (λ j l. j.id ≢ l.id) jobs
    → ((id : ℕ) → Owned db.jobs id → Owned jobs id)
    → IsValid (record db { jobs = jobs })
IsValid-of_jobs {db} jobs v distinct kept = record {
  jobs_distinct = distinct;
  tasks_valid =
      (v.tasks_valid.0, All-map (λ t h. (h.0, kept t.job_id h.1)) db.tasks v.tasks_valid.1);
  documents_valid = (
    v.documents_valid.0,
    All-map (λ r h. (h.0, h.1, kept r.job_id h.2)) db.documents v.documents_valid.1,
  );
  mapped_valid =
      (v.mapped_valid.0, All-map (λ r h. (h.0, h.1, kept r.job_id h.2)) db.mapped v.mapped_valid.1);
  dedupe_distinct = v.dedupe_distinct;
  next_positive = v.next_positive;
}

Owned-append : (jobs more : List Job) (id : ℕ) → Owned jobs id → Owned (jobs ++ more) id
Owned-append [] more id h = cc
Owned-append (j ∷ jobs) more id h = ground (arith, Owned-append jobs more id)

fresh_id :
    (id : ℕ) (jobs : List Job) → any (λ j. j.id == id) jobs ≡ false → All (λ j. j.id ≢ id) jobs
fresh_id id [] h = tt
fresh_id id (j ∷ jobs) h = ground (arith, fresh_id id jobs)

insert_job_row-IsValid :
    (id now : ℕ) (type : JobType) (params : Object) (expires_at deadline : ℕ) (db : Db)
    → IsValid db
    → IsValid (insert_job_row id now type params expires_at deadline db).1
unfolding insert_job_row
insert_job_row-IsValid id now type params expires_at deadline db v =
    elim (Bool-cases (has_job id db)) [
      | inl used ↦ rw used v
      | inr fresh ↦ rw fresh (
          IsValid-of_jobs _ v
            (AllPairs-append _ db.jobs _ v.jobs_distinct (tt, tt)
              (All-map (λ j ne. (ne, tt)) db.jobs (fresh_id id db.jobs fresh)))
            (Owned-append db.jobs _))
    ]

Owned-update :
    (p : Job → Bool) (f : Job → Job)
    → ((j : Job) → (f j).id ≡ j.id)
    → (jobs : List Job) (id : ℕ) → Owned jobs id
    → Owned (update_where p f jobs) id
Owned-update p f k [] id h = h
Owned-update p f k (j ∷ jobs) id h = ground (arith, k j, Owned-update p f k jobs id)

update_where-IsValid :
    (p : Job → Bool) (f : Job → Job)
    → ((j : Job) → (f j).id ≡ j.id)
    → (db : Db) → IsValid db
    → IsValid (record db { jobs = update_where p f db.jobs })
update_where-IsValid p f k db v =
    IsValid-of_jobs _ v
      (AllPairs-map _ _ db.jobs (λ j l _ _ ne. ground (arith, k j, k l)) v.jobs_distinct)
      (Owned-update p f k db.jobs)

update_job-IsValid :
    (job_id : ℕ) (f : Job → Job)
    → ((j : Job) → (f j).id ≡ j.id)
    → (db : Db) → IsValid db
    → IsValid (update_job job_id f db)
unfolding update_job
update_job-IsValid job_id f k db v = update_where-IsValid _ f k db v

pub insert_job-IsValid :
    (id now : ℕ) (type : JobType) (params : Object) (expires_at deadline : ℕ)
    → Keeps IsValid (insert_job id now type params expires_at deadline)
unfolding insert_job
insert_job-IsValid id now type params expires_at deadline =
    statement-Keeps _ (insert_job_row-IsValid id now type params expires_at deadline)

pub start_job-IsValid : (now job_id : ℕ) → Keeps IsValid (start_job now job_id)
unfolding start_job
start_job-IsValid now job_id = update-Keeps _ (update_job-IsValid job_id _ (λ j. refl))

pub update_job_status-IsValid :
    (now job_id : ℕ) (status : JobStatus) (msg : Text)
    → Keeps IsValid (update_job_status now job_id status msg)
unfolding update_job_status
update_job_status-IsValid now job_id status msg =
    update-Keeps _ (update_job-IsValid job_id _ (λ j. refl))

pub cancel_expired_jobs-IsValid : (now : ℕ) → Keeps IsValid (cancel_expired_jobs now)
unfolding cancel_expired_jobs cancel_expired_rows
cancel_expired_jobs-IsValid now = update-Keeps _ (update_where-IsValid _ _ (λ j. refl))

counts-IsValid : (job_id : ℕ) → Keeps IsValid (pending_task_counts job_id)
unfolding pending_task_counts
counts-IsValid job_id = query-Keeps _

failed-IsValid : (job_id : ℕ) → Keeps IsValid (has_failed_tasks job_id)
unfolding has_failed_tasks
failed-IsValid job_id = query-Keeps _

-- Whatever fails on the way, `FinishJob` keeps the invariant.
pub finish_job-IsValid : (now job_id : ℕ) → Keeps IsValid (finish_job now job_id)
unfolding finish_job
finish_job-IsValid now job_id =
    search (keeps_rules, counts-IsValid, failed-IsValid, update_job_status-IsValid)
