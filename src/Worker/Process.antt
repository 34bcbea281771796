-- ===== src/Worker/Process.antt =====
-- internal/worker/worker.go: the work on one task, and the loop of a worker.
pub mod Parts
pub mod Keeping
pub mod Valid
pub mod Size
pub mod Outcome
pub mod Blocked
use bytefetch.Prelude.{
  ℕ, suc, ◌+◌, ◌-◌, ◌*◌, ◌^◌, Text, codes, Bool, true, false, not, ◌&&◌, ◌||◌, Option, none, some,
  List, [], ◌∷◌, map, ltb, leb, min, ◌==◌, if◌then◌else◌,
}
use bytefetch.Json.{Object}
use bytefetch.Exec.{
  Error, sql_error, no_rows, no_such_job, pending_tasks, seed_already_processed, deadline_exceeded,
  max_duration_exceeded, unsupported_job_type, blocked_by_robots, too_large, context_done,
  fetch_failed, extract_failed, unsupported_format, Result, ok, err, World, Exec, pure, raise,
  ignore, update, ping, in_tx, ◌>>=◌, ◌>>◌,
}
use bytefetch.Store.Rows.{Job, JobType, JobStatus, job_status_eq, Task, NewTask, MappedInsert}
use bytefetch.Store.Tasks.{insert_tasks, dequeue_task, complete_task, fail_task, retry_task}
use bytefetch.Store.Jobs.{get_job, update_job_status, start_job, task_count, finish_job}
use bytefetch.Store.Documents.{has_seen_canonical, insert_mapped_batch}
use bytefetch.Url.Net.{UrlPackage}
use bytefetch.Config.{Config}
use bytefetch.Worker.Links.{Planner, unique_strings, append_unique_links, build_link_tasks}
use bytefetch.Worker.Filter.{filter_links}
use bytefetch.Worker.Pages.{
  Answer, Extracted, get_bool, get_int, lift, ensure_robots_allowed, process_document_task,
}

-- The store as the interface `taskPlanner`.
abbrev pub store_planner : Planner
store_planner = record { has_seen_canonical = has_seen_canonical; task_count = task_count }

-- `time.Since(created_at) > limit`, with a limit set.
abbrev pub is_late : ℕ → ℕ → ℕ → Bool
is_late limit created_at now = ltb 0 limit && ltb limit (now - created_at)

module _ (net : UrlPackage) (cfg : Config) where
  -- `collectLinks`; `discoverSitemapLinks` filters what the walk has found.
  unfoldable pub collect_links : Answer → Task → List Text → Bool → Bool → List Text
  collect_links answer task raw_links same_domain include_sitemaps =
      let links = filter_links net cfg same_domain task.requested_url raw_links in
      let more =
        filter_links net cfg same_domain task.requested_url
          (answer.sitemap_urls task.requested_url) in
      unique_strings
        (if include_sitemaps && task.depth == 0 then append_unique_links links more else links)

  abbrev pub wants_sitemaps : Object → Bool
  wants_sitemaps params = cfg.crawl.include_sitemaps && get_bool params (codes "include_sitemaps")

  abbrev pub found_links : Answer → Task → Object → List Text → List Text
  found_links answer task params raw_links =
      collect_links answer task raw_links (get_bool params (codes "same_domain"))
        (wants_sitemaps params)

  unfoldable pub insert_if_any : ℕ → ℕ → List NewTask → Exec Unit
  insert_if_any now job_id [] = pure tt
  insert_if_any now job_id (t ∷ ts) = insert_tasks now job_id (t ∷ ts)

  unfoldable pub insert_next : ℕ → Task → List Text → Exec Unit
  insert_next now task [] = pure tt
  insert_next now task (l ∷ links) = do
    tasks ← build_link_tasks store_planner cfg task.job_id (l ∷ links) (suc task.depth)
    insert_if_any now task.job_id tasks

  -- `processCrawlTask`
  unfoldable pub process_crawl_task : Answer → ℕ → Task → Object → Exec Unit
  process_crawl_task answer now task params = do
    ext ← process_document_task net cfg answer now task params JobType.crawl
    if leb (get_int params (codes "max_depth")) task.depth
        then pure tt
        else if is_late cfg.job_defaults.max_duration task.created_at now
        then raise max_duration_exceeded
        else insert_next now task (found_links answer task params ext.links)

  abbrev pub mapped_insert : Task → Text → MappedInsert
  mapped_insert task link = record {
    job_id = task.job_id;
    source_url = task.requested_url;
    target_url = link;
    depth = suc task.depth;
  }

  -- `enqueueMapLinks`
  unfoldable pub enqueue_map_links : ℕ → Task → List Text → List NewTask → Exec Unit
  enqueue_map_links now task [] tasks = pure tt
  enqueue_map_links now task (l ∷ links) tasks = in_tx (do
    insert_mapped_batch now (map (mapped_insert task) (l ∷ links))
    insert_if_any now task.job_id tasks)

  unfoldable pub map_next : ℕ → Task → List Text → Exec Unit
  map_next now task [] = pure tt
  map_next now task (l ∷ links) = do
    tasks ← build_link_tasks store_planner cfg task.job_id (l ∷ links) (suc task.depth)
    enqueue_map_links now task (l ∷ links) tasks

  -- `processMapTask`
  unfoldable pub process_map_task : Answer → ℕ → Task → Object → Exec Unit
  process_map_task answer now task params = do
    ensure_robots_allowed net cfg answer task.requested_url
    lift (answer.wait task.requested_url)
    page ← lift (answer.fetch task.requested_url false)
    ext ← lift (answer.extract page.final_url page.body)
    if leb (get_int params (codes "max_depth")) task.depth
        then pure tt
        else map_next now task (found_links answer task params ext.links)

  unfoldable pub process_task : Answer → ℕ → Task → Object → JobType → Exec Unit
  process_task answer now task params JobType.batch_scrape = do
    _ ← process_document_task net cfg answer now task params JobType.batch_scrape
    pure tt
  process_task answer now task params JobType.crawl = process_crawl_task answer now task params
  process_task answer now task params JobType.map = process_map_task answer now task params
  process_task answer now task params JobType.scrape = raise unsupported_job_type

  unfoldable pub start_if_queued : ℕ → Job → Exec Unit
  start_if_queued now job =
      if job_status_eq job.status JobStatus.queued then ignore (start_job now job.id) else pure tt

  -- `handleTask`: `now` is when it begins, `later` after the fetch. A context that is done shows as a
  -- failure of the call that it stops.
  unfoldable pub handle_task : Answer → ℕ → ℕ → Task → Exec Unit
  handle_task answer now later task = do
    job ← get_job task.job_id
    if is_late cfg.job_defaults.max_duration job.created_at now
        then (do
          ignore (update_job_status now job.id JobStatus.cancelled (codes "max_duration exceeded"))
          raise deadline_exceeded)
        else (do start_if_queued now job; process_task answer later task job.params job.type)

-- `shouldRetry`
unfoldable pub should_retry : ℕ → ℕ → Bool
should_retry attempts max_retries = ltb attempts max_retries

-- `err.Error()`. The texts of the database's errors are stand-ins, which nothing reads.
unfoldable pub error_text : Error → Text
error_text sql_error = codes "sql error"
error_text no_rows = codes "sql: no rows in result set"
error_text no_such_job = codes "sql error"
error_text pending_tasks = codes "job still has pending tasks"
error_text seed_already_processed = codes "seed url already processed"
error_text deadline_exceeded = codes "job deadline exceeded"
error_text max_duration_exceeded = codes "max_duration exceeded"
error_text unsupported_job_type = codes "unsupported job type: scrape"
error_text blocked_by_robots = codes "blocked by robots"
error_text too_large = codes "content exceeds max_bytes"
error_text context_done = codes "context canceled"
error_text (fetch_failed t) = t
error_text (extract_failed t) = t
error_text (unsupported_format t) = t

module _ (net : UrlPackage) (cfg : Config) where
  -- What `runWorker` does with the error of a task. It only logs the errors of these calls.
  unfoldable pub after_error : ℕ → Task → Error → Exec Unit
  after_error now task e =
      if should_retry task.attempts cfg.worker.max_retries
      then ignore (retry_task now task.id (error_text e))
      else ignore (fail_task now task.id (error_text e))

  unfoldable pub settle_task : ℕ → Task → Result Unit → Exec Unit
  settle_task now task (ok _) = ignore (complete_task now task.id)
  settle_task now task (err e) = after_error now task e

  -- The result of a call as a value, which the caller looks at.
  unfoldable pub attempt : Exec Unit → Exec (Result Unit)
  attempt m w = let (r, w') = m w in (ok r, w')

  -- The work on a dequeued task; `finish` is when it ends.
  unfoldable pub work_on : Answer → ℕ → ℕ → ℕ → Task → Exec Unit
  work_on answer now later finish task = do
    r ← attempt (handle_task net cfg answer now later task)
    settle_task finish task r
    ignore (finish_job finish task.job_id)

  -- One round of `runWorker`. Where there is no task it sleeps, and the next round is the same.
  unfoldable pub run_worker_round : Answer → ℕ → ℕ → ℕ → (ℕ → Bool) → Exec Unit
  run_worker_round answer now later finish locked = do
    task ← dequeue_task now cfg.worker.lease_timeout locked
    work_on answer now later finish task
