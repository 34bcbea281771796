-- ===== src/System/Reachable.antt =====
-- What holds of the database whatever the parts of the program do to it.
use bytefetch.Prelude.{ℕ, Bool, List, [], ◌∷◌, All-filter, Bool-cases, inl, inr}
use bytefetch.Json.{Object}
use bytefetch.Exec.{World, ping}
use bytefetch.Exec.Keeps.{
  Keeps, keeps_rules, pure-Keeps, query-Keeps, bind-Keeps, update-Keeps, statement-Keeps,
}
use bytefetch.Store.Rows.{Job, JobType, NewTask}
use bytefetch.Store.Db.{Db, has_job}
use bytefetch.Store.Tasks.{insert_tasks, update_task, update_task_heartbeat}
use bytefetch.Store.Jobs.{insert_job, insert_job_row, cancel_expired_jobs}
use bytefetch.Store.Invariant.{IsValid, empty_db-IsValid}
use bytefetch.Store.Invariant.Tasks.{update_task_heartbeat-IsValid}
use bytefetch.Cleanup.{is_over, delete_jobs, delete_over_jobs, sweep}
use bytefetch.Cleanup.Sweep.{sweep-IsValid}
use bytefetch.Server.Seeds.{TaskSeed, insert_seed_tasks, create_job_with_seeds}
use bytefetch.Server.Seeds.Atomic.{seed_tasks-Keeps, create_job_with_seeds-IsValid}
use bytefetch.Server.Routes.{HandlerDeps}
use bytefetch.Server.Routes.Atomic.{handle-Serves}
use bytefetch.Worker.Pages.Stored.{IsSmall}
use bytefetch.Worker.Process.Size.{insert_task_rows-IsSmall, run_worker_round-IsSmall}
use bytefetch.Worker.Process.Valid.{run_worker_round-IsValid}
use bytefetch.System.{Event, request, worker_round, heartbeat, swept, after, Reach, begin, step}

module _ (deps : HandlerDeps) where
  insert_job_row-IsSmall :
      (id now : ℕ) (type : JobType) (params : Object) (expires deadline : ℕ) (db : Db)
      → IsSmall deps.config db
      → IsSmall deps.config (insert_job_row id now type params expires deadline db).1
  unfolding insert_job_row
  insert_job_row-IsSmall id now type params expires deadline db h =
      elim (Bool-cases (has_job id db)) [ inl old ↦ rw old h | inr new ↦ rw new h ]

  insert_job-IsSmall :
      (id now : ℕ) (type : JobType) (params : Object) (expires deadline : ℕ)
      → Keeps (IsSmall deps.config) (insert_job id now type params expires deadline)
  unfolding insert_job
  insert_job-IsSmall id now type params expires deadline =
      statement-Keeps _ (insert_job_row-IsSmall id now type params expires deadline)

  insert_tasks-IsSmall :
      (now job_id : ℕ) (ts : List NewTask)
      → Keeps (IsSmall deps.config) (insert_tasks now job_id ts)
  unfolding insert_tasks
  insert_tasks-IsSmall now job_id ts =
      bind-Keeps _ _ (update-Keeps _ (λ d h. h))
        (λ _. insert_task_rows-IsSmall deps.config now job_id ts)

  insert_seed_tasks-IsSmall :
      (now job_id : ℕ) (ts : List NewTask)
      → Keeps (IsSmall deps.config) (insert_seed_tasks deps.net deps.config now job_id ts)
  unfolding insert_seed_tasks
  insert_seed_tasks-IsSmall now job_id [] = pure-Keeps tt
  insert_seed_tasks-IsSmall now job_id (t ∷ ts) = insert_tasks-IsSmall now job_id (t ∷ ts)

  create_job_with_seeds-IsSmall :
      (now new_id : ℕ) (type : JobType) (params : Object) (seeds : List TaskSeed)
      → Keeps
          (IsSmall deps.config)
          (create_job_with_seeds deps.net deps.config now new_id type params seeds)
  unfolding create_job_with_seeds
  create_job_with_seeds-IsSmall now new_id type params seeds =
      search (keeps_rules, insert_job-IsSmall, seed_tasks-Keeps, insert_seed_tasks-IsSmall)

  update_task_heartbeat-IsSmall :
      (now task_id : ℕ) → Keeps (IsSmall deps.config) (update_task_heartbeat now task_id)
  unfolding update_task_heartbeat update_task
  update_task_heartbeat-IsSmall now task_id = update-Keeps _ (λ d h. h)

  delete_jobs-IsSmall :
      (gone : Job → Bool) (db : Db)
      → IsSmall deps.config db
      → IsSmall deps.config (delete_jobs gone db)
  unfolding delete_jobs
  delete_jobs-IsSmall gone db h limited = All-filter _ _ db.documents (h limited)

  sweep-IsSmall : (now : ℕ) → Keeps (IsSmall deps.config) (sweep now)
  unfolding sweep ping cancel_expired_jobs delete_over_jobs
  sweep-IsSmall now = bind-Keeps _ _ (query-Keeps _) (λ _.
      bind-Keeps _ _ (update-Keeps _ (λ d h. h))
        (λ _. update-Keeps _ (λ d h. delete_jobs-IsSmall (is_over now) d h)))

  after-IsValid : (e : Event) (w : World) → IsValid w.db → IsValid (after deps e w)
  unfolding after
  after-IsValid (request rounds now new_id r) w h =
      (handle-Serves deps rounds now new_id
          (create_job_with_seeds-IsValid deps.net deps.config now new_id) r).run
        w h
  after-IsValid (worker_round answer now later finish locked) w h =
      (run_worker_round-IsValid deps.net deps.config answer now later finish locked).run w h
  after-IsValid (heartbeat now task_id) w h = (update_task_heartbeat-IsValid now task_id).run w h
  after-IsValid (swept now) w h = (sweep-IsValid now).run w h

  after-IsSmall :
      (e : Event) (w : World) → IsSmall deps.config w.db → IsSmall deps.config (after deps e w)
  unfolding after
  after-IsSmall (request rounds now new_id r) w h =
      (handle-Serves deps rounds now new_id (create_job_with_seeds-IsSmall now new_id) r).run w h
  after-IsSmall (worker_round answer now later finish locked) w h =
      (run_worker_round-IsSmall deps.net deps.config answer now later finish locked).run w h
  after-IsSmall (heartbeat now task_id) w h = (update_task_heartbeat-IsSmall now task_id).run w h
  after-IsSmall (swept now) w h = (sweep-IsSmall now).run w h

-- Whatever requests, rounds of workers, heartbeats and sweeps follow each other from an empty
-- database, and whatever statements of them fail, the database keeps its invariant, and no document
-- has more content than `max_bytes` where that limit is set.
pub Reach-IsValid :
    (deps : HandlerDeps) (db : Db) → Reach deps db → IsValid db × IsSmall deps.config db
Reach-IsValid deps db begin = (empty_db-IsValid, λ limited. tt)
Reach-IsValid deps db (step {db = before} reached e faults) =
    let (valid, small) = Reach-IsValid deps before reached in
    let w : World = record { db = before; faults = faults } in
    (after-IsValid deps e w valid, after-IsSmall deps e w small)
