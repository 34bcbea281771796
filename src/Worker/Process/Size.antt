-- ===== src/Worker/Process/Size.antt =====
-- internal/worker/worker.go: a round of a worker and the size of the documents.
use bytefetch.Prelude.{ℕ, Text, Bool, Option, none, some, List, [], ◌∷◌, Bool-cases, inl, inr, any}
use bytefetch.Exec.Keeps.{Keeps, keeps_rules, pure-Keeps, bind-Keeps, update-Keeps, statement-Keeps}
use bytefetch.Store.Rows.{JobStatus, Task, NewTask, MappedInsert}
use bytefetch.Store.Db.{Db, has_job}
use bytefetch.Store.Tasks.{
  same_key, insert_task_row, insert_task_rows, insert_tasks, claim, dequeue_row, dequeue_task,
  update_task, update_task_final_url, complete_task, fail_task, retry_task,
}
use bytefetch.Store.Jobs.{
  update_job, start_job, update_job_status, pending_task_counts, has_failed_tasks, finish_job,
}
use bytefetch.Store.Documents.{insert_mapped_row, insert_mapped_rows, insert_mapped_batch}
use bytefetch.Url.Net.{UrlPackage}
use bytefetch.Config.{Config}
use bytefetch.Worker.Pages.{Answer}
use bytefetch.Worker.Pages.Stored.{IsSmall, store_document-IsSmall}
use bytefetch.Worker.Process.{run_worker_round}
use bytefetch.Worker.Process.Keeping.{KeptByStore, run_worker_round-Keeps}

module _ (cfg : Config) where
  claim-IsSmall :
      (now : ℕ) (db : Db) (o : Option Task) → IsSmall cfg db → IsSmall cfg (claim now db o).1
  unfolding claim
  claim-IsSmall now db none h = h
  claim-IsSmall now db (some t) h = h

  insert_task_row-IsSmall :
      (now job_id : ℕ) (t : NewTask) (db : Db)
      → IsSmall cfg db
      → IsSmall cfg (insert_task_row now job_id t db).1
  unfolding insert_task_row
  insert_task_row-IsSmall now job_id t db h =
      elim (Bool-cases (any (same_key job_id t.final_url) db.tasks)) [
        | inl old ↦ rw old h
        | inr new ↦ elim (Bool-cases (has_job job_id db)) [
          | inl known ↦ rw (new, known) h
          | inr gone ↦ rw (new, gone) h
        ]
      ]

  pub insert_task_rows-IsSmall :
      (now job_id : ℕ) (ts : List NewTask) → Keeps (IsSmall cfg) (insert_task_rows now job_id ts)
  unfolding insert_task_rows
  insert_task_rows-IsSmall now job_id [] = pure-Keeps tt
  insert_task_rows-IsSmall now job_id (t ∷ ts) =
      bind-Keeps _ _ (statement-Keeps _ (insert_task_row-IsSmall now job_id t))
        (λ _. insert_task_rows-IsSmall now job_id ts)

  insert_mapped_row-IsSmall :
      (now : ℕ) (e : MappedInsert) (db : Db)
      → IsSmall cfg db
      → IsSmall cfg (insert_mapped_row now e db).1
  unfolding insert_mapped_row
  insert_mapped_row-IsSmall now e db h = elim (Bool-cases (has_job e.job_id db)) [
    | inl known ↦ rw known h
    | inr gone ↦ rw gone h
  ]

  insert_mapped_rows-IsSmall :
      (now : ℕ) (es : List MappedInsert) → Keeps (IsSmall cfg) (insert_mapped_rows now es)
  unfolding insert_mapped_rows
  insert_mapped_rows-IsSmall now [] = pure-Keeps tt
  insert_mapped_rows-IsSmall now (e ∷ es) =
      bind-Keeps _ _ (statement-Keeps _ (insert_mapped_row-IsSmall now e))
        (λ _. insert_mapped_rows-IsSmall now es)

  insert_mapped_batch-IsSmall :
      (now : ℕ) (es : List MappedInsert) → Keeps (IsSmall cfg) (insert_mapped_batch now es)
  unfolding insert_mapped_batch
  insert_mapped_batch-IsSmall now [] = pure-Keeps tt
  insert_mapped_batch-IsSmall now (e ∷ es) =
      bind-Keeps _ _ (update-Keeps _ (λ d h. h)) (λ _. insert_mapped_rows-IsSmall now (e ∷ es))

  set_job_status-IsSmall :
      (now job_id : ℕ) (status : JobStatus) (msg : Text)
      → Keeps (IsSmall cfg) (update_job_status now job_id status msg)
  unfolding update_job_status update_job
  set_job_status-IsSmall now job_id status msg = update-Keeps _ (λ d h. h)

  finish_job-IsSmall : (now job_id : ℕ) → Keeps (IsSmall cfg) (finish_job now job_id)
  unfolding finish_job pending_task_counts has_failed_tasks
  finish_job-IsSmall now job_id = search (keeps_rules, set_job_status-IsSmall) depth 10

module _ (net : UrlPackage) (cfg : Config) where
  store-IsSmall : KeptByStore net cfg (IsSmall cfg)
  unfolding update_task_final_url insert_tasks start_job update_job complete_task fail_task
      retry_task update_task dequeue_task dequeue_row
  store-IsSmall = record {
    final_url = λ now task_id url. update-Keeps _ (λ d h. h);
    add_tasks = λ now job_id ts.
        bind-Keeps _ _ (update-Keeps _ (λ d h. h))
          (λ _. insert_task_rows-IsSmall cfg now job_id ts);
    add_mapped = insert_mapped_batch-IsSmall cfg;
    start = λ now job_id. update-Keeps _ (λ d h. h);
    end_job = set_job_status-IsSmall cfg;
    complete = λ now task_id. update-Keeps _ (λ d h. h);
    fail = λ now task_id reason. update-Keeps _ (λ d h. h);
    retry = λ now task_id msg. update-Keeps _ (λ d h. h);
    dequeue = λ now lease_timeout locked. statement-Keeps _ (λ db h. claim-IsSmall cfg now db _ h);
    finish = finish_job-IsSmall cfg;
    store = store_document-IsSmall net cfg;
  }

  -- Where `max_bytes` is set, a round of a worker stores no document whose content is longer, whatever
  -- the other components answer and whatever fails.
  pub run_worker_round-IsSmall :
      (answer : Answer) (now later finish : ℕ) (locked : ℕ → Bool)
      → Keeps (IsSmall cfg) (run_worker_round net cfg answer now later finish locked)
  run_worker_round-IsSmall = run_worker_round-Keeps net cfg (IsSmall cfg) (store-IsSmall)
