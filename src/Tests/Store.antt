-- ===== src/Tests/Store.antt =====
-- Runs of the statements of internal/store, and of a sweep of internal/cleanup.
use bytefetch.Prelude.{ℕ, ◌-◌, ◌≡◌, ◌≢◌, ◌↔◌, In, refl, Bool, true, false, ap, ◌∙◌, [], ◌∷◌, arith}
use bytefetch.Exec.{ok}
use bytefetch.Store.Rows.{Job, Task, TaskStatus, DocumentRow, MappedRow}
use bytefetch.Store.Db.{Db}
use bytefetch.Store.Tasks.{
  claimed, claim, least, lesser, claimable, lease_over, dequeue_row, update_task,
}
use bytefetch.Store.Jobs.{finish_job, count_tasks, stats_of, update_job}
use bytefetch.Store.Claims.{Claims, dequeue_row-Claims, after_dequeues, dequeue_row_exclusive}
use bytefetch.Store.Finish.{Finish, quiet, finish_job-Finish}
use bytefetch.Cleanup.{sweep}
use bytefetch.Cleanup.Sweep.{IsOver, Owned, sweep_lem}
use bytefetch.Tests.Data.{sample, task_1, task_2}

rows : Unit {0}
unfolding dequeue_row least lesser claimable lease_over claim claimed update_task count_tasks
    stats_of update_job
rows = tt

abbrev nobody : ℕ → Bool
nobody id = false

-- The lease of task 1 ended at 25 + 10; the second dequeue finds nothing else.
abbrev two_tasks : Db
two_tasks = record sample { tasks = task_1 ∷ record task_2 { status = TaskStatus.queued } ∷ [] }

abbrev task_1_taken : Task
unfolding claimed
task_1_taken = claimed 40 task_1

abbrev one_taken : Db
one_taken = record sample {
  tasks = task_1_taken ∷ record task_2 { status = TaskStatus.queued } ∷ [];
}

abbrev both_taken : Db
unfolding claimed
both_taken = record sample {
  tasks = task_1_taken ∷ claimed 45 (record task_2 { status = TaskStatus.queued }) ∷ [];
}

first_dequeue : dequeue_row 40 10 nobody two_tasks ≡ (ok task_1_taken, one_taken)
unfolding rows
first_dequeue = refl

second_dequeue :
    dequeue_row 45 10 nobody one_taken
    ≡ (ok (claimed 45 (record task_2 { status = TaskStatus.queued })), both_taken)
unfolding rows
second_dequeue = refl

dequeue_row-Claims_example :
    Claims 40 (40 - 10) nobody two_tasks (dequeue_row 40 10 nobody two_tasks)
dequeue_row-Claims_example = dequeue_row-Claims 40 10 nobody two_tasks

-- A dequeue in between, which finds every row locked.
between_none : after_dequeues 10 ((42, λ id. true) ∷ []) one_taken ≡ one_taken
unfolding rows after_dequeues
between_none = refl

third_dequeue :
    dequeue_row 45 10 nobody (after_dequeues 10 ((42, λ id. true) ∷ []) one_taken)
    ≡ (ok (claimed 45 (record task_2 { status = TaskStatus.queued })), both_taken)
third_dequeue = ap (dequeue_row 45 10 nobody) between_none ∙ second_dequeue

dequeue_row_exclusive_example : task_2.id ≢ task_1_taken.id
unfolding claimed
dequeue_row_exclusive_example =
    dequeue_row_exclusive 40 45 10 nobody nobody ((42, λ id. true) ∷ []) two_tasks one_taken
      both_taken task_1_taken (claimed 45 (record task_2 { status = TaskStatus.queued }))
      (omega arith, tt) (omega arith) first_dequeue third_dequeue

finish_job-Finish_example : Finish 60 2 sample (finish_job 60 2 (quiet sample))
finish_job-Finish_example = finish_job-Finish 60 2 sample

-- One job is past its expiry.
sweep_lem_example :
    (after : Db) × (sweep 60 (quiet sample) ≡ (ok tt, quiet after))
    × ((j : Job) → In j after.jobs ↔ (In j sample.jobs × ¬ IsOver 60 j))
    × ((t : Task) → In t after.tasks ↔ (In t sample.tasks × Owned t.job_id after))
    × ((r : DocumentRow) → In r after.documents ↔ (In r sample.documents × Owned r.job_id after))
    × ((r : MappedRow) → In r after.mapped ↔ (In r sample.mapped × Owned r.job_id after))
    × (after.dedupe ≡ sample.dedupe)
sweep_lem_example = sweep_lem 60 sample
