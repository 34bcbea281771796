-- ===== src/Worker/Process/Outcome.antt =====
-- internal/worker/worker.go: what becomes of a task when the work on it is over.
use bytefetch.Prelude.{
  ℕ, ◌≡◌, ◌<◌, ◌≤◌, refl, sym, ap, subst, ◌∙◌, ◌⊎◌, Text, true, false, none, some, List, [], ◌∷◌,
  update_where, Bool-cases, inl, inr, All, ◌==◌, arith,
}
use bytefetch.Exec.{Result, ok, err, World, ignore, statement, update}
use bytefetch.Exec.Keeps.{Keeps, keeps_rules, update-Keeps, ignore-Keeps}
use bytefetch.Exec.Steps.{bind-ok}
use bytefetch.Store.Rows.{JobStatus, Task, TaskStatus}
use bytefetch.Store.Db.{Db}
use bytefetch.Store.Tasks.{
  update_task, completed_task, complete_task, failed_task, fail_task, retried_task, retry_task,
}
use bytefetch.Store.Jobs.{
  update_job, update_job_status, pending_task_counts, has_failed_tasks, finish_job,
}
use bytefetch.Store.Finish.{quiet}
use bytefetch.Url.Net.{UrlPackage}
use bytefetch.Config.{Config}
use bytefetch.Worker.Pages.{Answer}
use bytefetch.Worker.Process.{
  handle_task, should_retry, error_text, after_error, settle_task, attempt, work_on,
}

-- How the row of a task stands after the work on it has given the result.
abbrev pub Settles : Config → Task → Result Unit → Task → Type 0
Settles cfg task (ok _) t = t.status ≡ TaskStatus.done
Settles cfg task (err e) t =
    ((task.attempts < cfg.worker.max_retries)
      × (t.status ≡ TaskStatus.queued)
      × (t.heartbeat_at ≡ none))
    ⊎ ((cfg.worker.max_retries ≤ task.attempts)
        × (t.status ≡ TaskStatus.failed)
        × (t.error ≡ some (error_text e)))

abbrev pub Settled : Config → Task → Result Unit → Db → Type 0
Settled cfg task r db = All (λ t. t.id ≡ task.id → Settles cfg task r t) db.tasks

should_retry_sound : (a m : ℕ) → should_retry a m ≡ true → a < m
unfolding should_retry
should_retry_sound a m h = ground arith

should_retry_over : (a m : ℕ) → should_retry a m ≡ false → m ≤ a
unfolding should_retry
should_retry_over a m h = ground arith

update_where-All :
    (P : Task → Type 0) (task_id : ℕ) (f : Task → Task)
    → ((t : Task) → P (f t))
    → (tasks : List Task)
    → All (λ t. t.id ≡ task_id → P t) (update_where (λ t. t.id == task_id) f tasks)
update_where-All P task_id f h [] = tt
update_where-All P task_id f h (t ∷ tasks) =
    let rest = update_where-All P task_id f h tasks in
    elim (Bool-cases (t.id == task_id)) [
      | inl hit ↦ rw hit ((λ _. h t), rest)
      | inr miss ↦ rw miss ((λ e. absurd (ground arith)), rest)
    ]

module _ (net : UrlPackage) (cfg : Config) where
  settle_task_lem :
      (now : ℕ) (task : Task) (r : Result Unit) (db : Db)
      → (db' : Db) × (settle_task net cfg now task r (quiet db) ≡ (ok tt, quiet db'))
        × Settled cfg task r db'
  unfolding settle_task after_error complete_task retry_task fail_task update statement ignore
      update_task completed_task retried_task failed_task
  settle_task_lem now task (ok _) db =
      (_, refl, update_where-All _ task.id (completed_task now) (λ t. refl) db.tasks)
  settle_task_lem now task (err e) db =
      elim (Bool-cases (should_retry task.attempts cfg.worker.max_retries)) [
        | inl again ↦ (
          update_task task.id (retried_task now (error_text e)) db,
          rw again refl,
          update_where-All (Settles cfg task (err e)) task.id (retried_task now (error_text e))
              (λ t. inl (should_retry_sound _ _ again, refl, refl)) db.tasks,
        )
        | inr over ↦ (
          update_task task.id (failed_task now (error_text e)) db,
          rw over refl,
          update_where-All (Settles cfg task (err e)) task.id (failed_task now (error_text e))
              (λ t. inr (should_retry_over _ _ over, refl, refl)) db.tasks,
        )
      ]

  set_status-Settled :
      (task : Task) (r : Result Unit) (now job_id : ℕ) (status : JobStatus) (msg : Text)
      → Keeps (Settled cfg task r) (update_job_status now job_id status msg)
  unfolding update_job_status update_job
  set_status-Settled task r now job_id status msg = update-Keeps _ (λ d h. h)

  finish_job-Settled :
      (task : Task) (r : Result Unit) (now job_id : ℕ)
      → Keeps (Settled cfg task r) (finish_job now job_id)
  unfolding finish_job pending_task_counts has_failed_tasks
  finish_job-Settled task r now job_id = search (keeps_rules, set_status-Settled) depth 10

  -- If no statement fails once a task has been worked on, its row does not stay with the worker: it is
  -- done where the work succeeded; after an error it is queued again, free for the next worker, while it
  -- has failed fewer times before than `max_retries` says, and else it has failed with that error.
  pub work_on-Settled :
      (answer : Answer) (now later finish : ℕ) (task : Task) (w : World)
      → (handle_task net cfg answer now later task w).1.faults ≡ []
      → Settled cfg task
          (handle_task net cfg answer now later task w).0
          (work_on net cfg answer now later finish task w).1.db
  unfolding work_on attempt
  work_on-Settled answer now later finish task w calm =
      let r = (handle_task net cfg answer now later task w).0 in
      let db = (handle_task net cfg answer now later task w).1.db in
      let worked : handle_task net cfg answer now later task w ≡ (r, quiet db) =
        ap (λ faults. (r, record { db = db; faults = faults })) calm in
      let (db', settle, settled) = settle_task_lem finish task r db in
      let end =
        ignore-Keeps (finish_job finish task.job_id)
          (finish_job-Settled task r finish task.job_id) in
      subst (λ (s : Result Unit × World). Settled cfg task r s.1.db)
        (sym (
          bind-ok _ _ w (ap (λ (s : Result Unit × World). (ok s.0, s.1)) worked)
          ∙ bind-ok _ _ (quiet db) settle))
        (end.run (quiet db') settled)
