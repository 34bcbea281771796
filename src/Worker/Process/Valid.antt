-- ===== src/Worker/Process/Valid.antt =====
-- internal/worker/worker.go: a round of a worker and the invariant of the database.
use bytefetch.Prelude.{ℕ, Text, Bool, Option, none, some}
use bytefetch.Json.{Object}
use bytefetch.Exec.Keeps.{Keeps, keeps_rules, pure-Keeps, if-Keeps, ignore-Keeps}
use bytefetch.Store.Rows.{JobType, Task}
use bytefetch.Store.Invariant.{IsValid}
use bytefetch.Store.Invariant.Tasks.{
  dequeue_task-IsValid, insert_tasks-IsValid, complete_task-IsValid, fail_task-IsValid,
  retry_task-IsValid, update_task_final_url-IsValid,
}
use bytefetch.Store.Invariant.Jobs.{
  start_job-IsValid, update_job_status-IsValid, finish_job-IsValid,
}
use bytefetch.Store.Invariant.Documents.{
  insert_document-IsValid, insert_mapped_batch-IsValid, mark_canonical-IsValid,
}
use bytefetch.Url.Net.{UrlPackage}
use bytefetch.Url.Canonical.{canonicalize}
use bytefetch.Config.{Config}
use bytefetch.Worker.Pages.{Answer, Extracted, Outputs, mark_if_any, mark_page, store_document}
use bytefetch.Worker.Process.{run_worker_round}
use bytefetch.Worker.Process.Keeping.{KeptByStore, run_worker_round-Keeps}

module _ (net : UrlPackage) (cfg : Config) where
  mark_if_any-IsValid : (now : ℕ) (o : Option Text) → Keeps IsValid (mark_if_any net cfg now o)
  mark_if_any-IsValid now none = pure-Keeps tt
  mark_if_any-IsValid now (some canon) = ignore-Keeps _ (mark_canonical-IsValid now canon)

  mark_page-IsValid : (now : ℕ) (url : Text) → Keeps IsValid (mark_page net cfg now url)
  unfolding mark_page
  mark_page-IsValid now url =
      if-Keeps cfg.crawl.dedupe_cache _ _
        (λ _. mark_if_any-IsValid now (canonicalize net url cfg.crawl.strip_query))
        (λ _. pure-Keeps tt)

  store_document-IsValid :
      (now : ℕ) (task : Task) (final_url : Text) (outputs : Outputs) (primary : Text)
      (ext : Extracted) (params : Object) (type : JobType)
      → Keeps IsValid (store_document net cfg now task final_url outputs primary ext params type)
  unfolding store_document
  store_document-IsValid now task final_url outputs primary ext params type =
      search (keeps_rules, insert_document-IsValid, mark_page-IsValid)

  store-IsValid : KeptByStore net cfg IsValid
  store-IsValid = record {
    final_url = update_task_final_url-IsValid;
    add_tasks = insert_tasks-IsValid;
    add_mapped = insert_mapped_batch-IsValid;
    start = start_job-IsValid;
    end_job = update_job_status-IsValid;
    complete = complete_task-IsValid;
    fail = fail_task-IsValid;
    retry = retry_task-IsValid;
    dequeue = dequeue_task-IsValid;
    finish = finish_job-IsValid;
    store = store_document-IsValid;
  }

  -- A round of a worker keeps the invariant of the database, whatever the other components answer, the
  -- type of the job, and the statements that fail.
  pub run_worker_round-IsValid :
      (answer : Answer) (now later finish : ℕ) (locked : ℕ → Bool)
      → Keeps IsValid (run_worker_round net cfg answer now later finish locked)
  run_worker_round-IsValid = run_worker_round-Keeps net cfg IsValid store-IsValid
