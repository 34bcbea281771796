-- ===== src/Tests/Process.antt =====
-- Runs of the loop of internal/worker, and lists of formats.
use bytefetch.Prelude.{
  ℕ, ◌≡◌, ◌≢◌, ◌↔◌, refl, ap, Text, codes, Bool, true, false, List, [], ◌∷◌, map, In, AllPairs,
}
use bytefetch.Exec.{ok, err, blocked_by_robots, statement, query, ◌>>=◌}
use bytefetch.Store.Rows.{JobType, job_status_eq}
use bytefetch.Store.Jobs.{get_job, get_job_row}
use bytefetch.Store.Finish.{quiet}
use bytefetch.Config.{default_config}
use bytefetch.Types.{normalize_formats}
use bytefetch.Types.Formats.{normal_format, normalize_formats_lem}
use bytefetch.Worker.Links.{unique_strings}
use bytefetch.Worker.Pages.{Answer}
use bytefetch.Worker.Process.{handle_task, process_task, work_on, start_if_queued}
use bytefetch.Worker.Process.Outcome.{Settled, work_on-Settled}
use bytefetch.Worker.Process.Blocked.{process_task_blocked}
use bytefetch.Tests.Data.{sample, task_1, config, hosts_only}

abbrev nobody : ℕ → Bool
nobody id = false

-- A site that robots.txt keeps out, and whose pages have no links.
abbrev closed : Answer
closed = record {
  allowed = λ url. false;
  wait = λ url. ok tt;
  fetch = λ url js. ok (record { body = []; final_url = url });
  extract = λ url body. ok (record { title = []; html = body; meta = []; links = [] });
  format_content = λ ext format. ok ext.html;
  sitemap_urls = λ url. [];
}

respects_robots : config.crawl.respect_robots ≡ true
unfolding default_config
respects_robots = refl

-- The task is of a job that runs, and its page is kept out.
blocked_task :
    handle_task hosts_only config closed 60 61 task_1 (quiet sample)
    ≡ (err blocked_by_robots, quiet sample)
unfolding handle_task get_job get_job_row statement query ◌>>=◌ start_if_queued job_status_eq
    default_config
blocked_task =
    process_task_blocked hosts_only config closed task_1 (quiet sample) 61 [] JobType.crawl
      respects_robots refl (λ e. cc e)

-- It has been tried once before, so it is queued again.
work_on-Settled_example :
    Settled config task_1
      (handle_task hosts_only config closed 60 61 task_1 (quiet sample)).0
      (work_on hosts_only config closed 60 61 62 task_1 (quiet sample)).1.db
work_on-Settled_example =
    work_on-Settled hosts_only config closed 60 61 62 task_1 (quiet sample)
      (ap (λ r. r.1.faults) blocked_task)

process_task_blocked_example :
    process_task hosts_only config closed 61 task_1 [] JobType.crawl (quiet sample)
    ≡ (err blocked_by_robots, quiet sample)
process_task_blocked_example =
    process_task_blocked hosts_only config closed task_1 (quiet sample) 61 [] JobType.crawl
      respects_robots refl (λ e. cc e)

abbrev some_formats : List Text
some_formats = codes " HTML" ∷ codes "html" ∷ codes " " ∷ []

normalize_formats_lem_example :
    (normalize_formats some_formats ≡ unique_strings (map normal_format some_formats))
    × ((a : Text)
        → In a (normalize_formats some_formats)
          ↔ (In a (map normal_format some_formats) × (a ≢ [])))
    × AllPairs ◌≢◌ (normalize_formats some_formats)
normalize_formats_lem_example = normalize_formats_lem some_formats
