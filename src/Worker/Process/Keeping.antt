-- ===== src/Worker/Process/Keeping.antt =====
-- internal/worker/worker.go: what the work on a task keeps of the database.
use bytefetch.Prelude.{ℕ, Text, Bool, List, [], ◌∷◌}
use bytefetch.Json.{Object}
use bytefetch.Exec.{Result, ok, err, Exec}
use bytefetch.Exec.Keeps.{Keeps, keeps_rules, pure-Keeps, raise-Keeps, ignore-Keeps}
use bytefetch.Store.Rows.{Job, JobType, JobStatus, Task, NewTask, MappedInsert}
use bytefetch.Store.Db.{Db}
use bytefetch.Store.Tasks.{
  insert_tasks, update_task_final_url, complete_task, fail_task, retry_task, dequeue_task,
}
use bytefetch.Store.Jobs.{start_job, update_job_status, finish_job}
use bytefetch.Store.Documents.{insert_mapped_batch}
use bytefetch.Url.Net.{UrlPackage}
use bytefetch.Config.{Config}
use bytefetch.Worker.Pages.{
  Answer, Extracted, Outputs, store_document, move_task, fetch_extract_and_store,
  ensure_robots_allowed, process_document_task,
}
use bytefetch.Worker.Process.{
  insert_if_any, insert_next, process_crawl_task, enqueue_map_links, map_next, process_map_task,
  process_task, start_if_queued, handle_task, after_error, settle_task, attempt, work_on,
  run_worker_round,
}
use bytefetch.Worker.Process.Parts.{
  lift-Keeps, make_outputs-Keeps, or_markdown-Keeps, build_link_tasks-Keeps, get_job-Keeps,
}

-- What the calls of the store that a worker makes keep of the database.
pub record KeptByStore (net : UrlPackage) (cfg : Config) (P : Db → Type 0) : Type 0 where
  pub final_url : (now task_id : ℕ) (url : Text) → Keeps P (update_task_final_url now task_id url)
  pub add_tasks : (now job_id : ℕ) (ts : List NewTask) → Keeps P (insert_tasks now job_id ts)
  pub add_mapped : (now : ℕ) (es : List MappedInsert) → Keeps P (insert_mapped_batch now es)
  pub start : (now job_id : ℕ) → Keeps P (start_job now job_id)
  pub end_job :
      (now job_id : ℕ) (status : JobStatus) (msg : Text)
      → Keeps P (update_job_status now job_id status msg)
  pub complete : (now task_id : ℕ) → Keeps P (complete_task now task_id)
  pub fail : (now task_id : ℕ) (reason : Text) → Keeps P (fail_task now task_id reason)
  pub retry : (now task_id : ℕ) (msg : Text) → Keeps P (retry_task now task_id msg)
  pub dequeue :
      (now lease_timeout : ℕ) (locked : ℕ → Bool) → Keeps P (dequeue_task now lease_timeout locked)
  pub finish : (now job_id : ℕ) → Keeps P (finish_job now job_id)
  pub store :
      (now : ℕ) (task : Task) (final_url : Text) (outputs : Outputs) (primary : Text)
      (ext : Extracted) (params : Object) (type : JobType)
      → Keeps P (store_document net cfg now task final_url outputs primary ext params type)

module _ (net : UrlPackage) (cfg : Config) (P : Db → Type 0) (kept : KeptByStore net cfg P) where
  move_task-Keeps :
      (now : ℕ) (task : Task) (canon : Text) → Keeps P (move_task net cfg now task canon)
  unfolding move_task
  move_task-Keeps now task canon = search (keeps_rules, kept.final_url)

  fetch_extract_and_store-Keeps :
      (answer : Answer) (now : ℕ) (task : Task) (params : Object) (type : JobType)
      → Keeps P (fetch_extract_and_store net cfg answer now task params type)
  unfolding fetch_extract_and_store
  fetch_extract_and_store-Keeps answer now task params type =
      search
        (
          keeps_rules, lift-Keeps, move_task-Keeps, make_outputs-Keeps, or_markdown-Keeps,
          kept.store,
        )
        depth 20

  ensure_robots_allowed-Keeps :
      (answer : Answer) (url : Text) → Keeps P (ensure_robots_allowed net cfg answer url)
  unfolding ensure_robots_allowed
  ensure_robots_allowed-Keeps answer url = search keeps_rules

  process_document_task-Keeps :
      (answer : Answer) (now : ℕ) (task : Task) (params : Object) (type : JobType)
      → Keeps P (process_document_task net cfg answer now task params type)
  unfolding process_document_task
  process_document_task-Keeps answer now task params type =
      search (keeps_rules, ensure_robots_allowed-Keeps, lift-Keeps, fetch_extract_and_store-Keeps)
        depth 10

  insert_if_any-Keeps :
      (now job_id : ℕ) (ts : List NewTask) → Keeps P (insert_if_any net cfg now job_id ts)
  unfolding insert_if_any
  insert_if_any-Keeps now job_id [] = pure-Keeps tt
  insert_if_any-Keeps now job_id (t ∷ ts) = kept.add_tasks now job_id (t ∷ ts)

  insert_next-Keeps :
      (now : ℕ) (task : Task) (links : List Text) → Keeps P (insert_next net cfg now task links)
  unfolding insert_next
  insert_next-Keeps now task [] = pure-Keeps tt
  insert_next-Keeps now task (l ∷ links) =
      search (keeps_rules, build_link_tasks-Keeps, insert_if_any-Keeps)

  process_crawl_task-Keeps :
      (answer : Answer) (now : ℕ) (task : Task) (params : Object)
      → Keeps P (process_crawl_task net cfg answer now task params)
  unfolding process_crawl_task
  process_crawl_task-Keeps answer now task params =
      search (keeps_rules, process_document_task-Keeps, insert_next-Keeps) depth 10

  enqueue_map_links-Keeps :
      (now : ℕ) (task : Task) (links : List Text) (tasks : List NewTask)
      → Keeps P (enqueue_map_links net cfg now task links tasks)
  unfolding enqueue_map_links
  enqueue_map_links-Keeps now task [] tasks = pure-Keeps tt
  enqueue_map_links-Keeps now task (l ∷ links) tasks =
      search (keeps_rules, kept.add_mapped, insert_if_any-Keeps)

  map_next-Keeps :
      (now : ℕ) (task : Task) (links : List Text) → Keeps P (map_next net cfg now task links)
  unfolding map_next
  map_next-Keeps now task [] = pure-Keeps tt
  map_next-Keeps now task (l ∷ links) =
      search (keeps_rules, build_link_tasks-Keeps, enqueue_map_links-Keeps)

  process_map_task-Keeps :
      (answer : Answer) (now : ℕ) (task : Task) (params : Object)
      → Keeps P (process_map_task net cfg answer now task params)
  unfolding process_map_task
  process_map_task-Keeps answer now task params =
      search (keeps_rules, ensure_robots_allowed-Keeps, lift-Keeps, map_next-Keeps) depth 16

  process_task-Keeps :
      (answer : Answer) (now : ℕ) (task : Task) (params : Object) (type : JobType)
      → Keeps P (process_task net cfg answer now task params type)
  unfolding process_task
  process_task-Keeps answer now task params JobType.batch_scrape =
      search (keeps_rules, process_document_task-Keeps)
  process_task-Keeps answer now task params JobType.crawl =
      process_crawl_task-Keeps answer now task params
  process_task-Keeps answer now task params JobType.map =
      process_map_task-Keeps answer now task params
  process_task-Keeps answer now task params JobType.scrape = raise-Keeps _

  start_if_queued-Keeps : (now : ℕ) (job : Job) → Keeps P (start_if_queued net cfg now job)
  unfolding start_if_queued
  start_if_queued-Keeps now job = search (keeps_rules, kept.start)

  handle_task-Keeps :
      (answer : Answer) (now later : ℕ) (task : Task)
      → Keeps P (handle_task net cfg answer now later task)
  unfolding handle_task
  handle_task-Keeps answer now later task =
      search (keeps_rules, get_job-Keeps, kept.end_job, start_if_queued-Keeps, process_task-Keeps)
        depth 12

  attempt-Keeps : (m : Exec Unit) → Keeps P m → Keeps P (attempt net cfg m)
  unfolding attempt
  attempt-Keeps m k = record { run = k.run }

  settle_task-Keeps :
      (now : ℕ) (task : Task) (r : Result Unit) → Keeps P (settle_task net cfg now task r)
  unfolding settle_task after_error
  settle_task-Keeps now task (ok _) = ignore-Keeps _ (kept.complete now task.id)
  settle_task-Keeps now task (err e) = search (keeps_rules, kept.retry, kept.fail)

  work_on-Keeps :
      (answer : Answer) (now later finish : ℕ) (task : Task)
      → Keeps P (work_on net cfg answer now later finish task)
  unfolding work_on
  work_on-Keeps answer now later finish task =
      search (keeps_rules, attempt-Keeps, handle_task-Keeps, settle_task-Keeps, kept.finish) depth
        10

  pub run_worker_round-Keeps :
      (answer : Answer) (now later finish : ℕ) (locked : ℕ → Bool)
      → Keeps P (run_worker_round net cfg answer now later finish locked)
  unfolding run_worker_round
  run_worker_round-Keeps answer now later finish locked =
      search (keeps_rules, kept.dequeue, work_on-Keeps)
