-- ===== src/Worker/Process/Blocked.antt =====
-- internal/worker/worker.go: a page that robots.txt keeps the crawler from.
use bytefetch.Prelude.{◌≡◌, ◌≢◌, refl, ℕ, true, false}
use bytefetch.Json.{Object}
use bytefetch.Exec.{World, err, blocked_by_robots, raise}
use bytefetch.Exec.Steps.{bind-err}
use bytefetch.Store.Rows.{JobType, Task}
use bytefetch.Url.Net.{UrlPackage}
use bytefetch.Config.{Config}
use bytefetch.Worker.Pages.{Answer, ensure_robots_allowed, process_document_task}
use bytefetch.Worker.Process.{process_crawl_task, process_map_task, process_task}

module _ (net : UrlPackage) (cfg : Config) (answer : Answer) (task : Task) (w : World)
    (respect : cfg.crawl.respect_robots ≡ true)
    (kept_out : answer.allowed task.requested_url ≡ false) where
  ensure-blocked :
      ensure_robots_allowed net cfg answer task.requested_url w ≡ (err blocked_by_robots, w)
  unfolding ensure_robots_allowed raise
  ensure-blocked = rw (respect, kept_out) refl

  document-blocked :
      (now : ℕ) (params : Object) (type : JobType)
      → process_document_task net cfg answer now task params type w ≡ (err blocked_by_robots, w)
  unfolding process_document_task
  document-blocked now params type = bind-err _ _ w ensure-blocked

  crawl-blocked :
      (now : ℕ) (params : Object)
      → process_crawl_task net cfg answer now task params w ≡ (err blocked_by_robots, w)
  unfolding process_crawl_task
  crawl-blocked now params = bind-err _ _ w (document-blocked now params JobType.crawl)

  map-blocked :
      (now : ℕ) (params : Object)
      → process_map_task net cfg answer now task params w ≡ (err blocked_by_robots, w)
  unfolding process_map_task
  map-blocked now params = bind-err _ _ w ensure-blocked

-- With `respect_robots`, a task for a page that robots.txt keeps out ends in that error and changes
-- nothing, whatever the type of the job that tasks can have: nothing is fetched, stored or enqueued.
pub process_task_blocked :
    (net : UrlPackage) (cfg : Config) (answer : Answer) (task : Task) (w : World) (now : ℕ)
    (params : Object) (type : JobType)
    → cfg.crawl.respect_robots ≡ true
    → answer.allowed task.requested_url ≡ false
    → type ≢ JobType.scrape
    → process_task net cfg answer now task params type w ≡ (err blocked_by_robots, w)
unfolding process_task
process_task_blocked net cfg answer task w now params JobType.batch_scrape respect out other =
    bind-err _ _ w
      (document-blocked net cfg answer task w respect out now params JobType.batch_scrape)
process_task_blocked net cfg answer task w now params JobType.crawl respect out other =
    crawl-blocked net cfg answer task w respect out now params
process_task_blocked net cfg answer task w now params JobType.map respect out other =
    map-blocked net cfg answer task w respect out now params
process_task_blocked net cfg answer task w now params JobType.scrape respect out other =
    absurd (other refl)
