-- ===== src/Worker/Process/Parts.antt =====
-- internal/worker/worker.go: what the calls that change no row keep of the database.
use bytefetch.Prelude.{ℕ, Text, false, List, [], ◌∷◌, is_empty, find, ◌==◌, Option, none, some}
use bytefetch.Exec.{Result, ok, err}
use bytefetch.Exec.Keeps.{
  Keeps, keeps_rules, pure-Keeps, raise-Keeps, bind-Keeps, query-Keeps, statement-Keeps, if-Keeps,
}
use bytefetch.Store.Rows.{Job, NewTask}
use bytefetch.Store.Db.{Db}
use bytefetch.Store.Jobs.{found_job, get_job, get_job_row, task_count}
use bytefetch.Store.Documents.{has_seen_canonical, should_skip_canonical}
use bytefetch.Config.{Config}
use bytefetch.Worker.Links.{plan_links, limit_tasks, build_link_tasks}
use bytefetch.Worker.Pages.{
  Answer, Extracted, Outputs, lift, has_output, primary_of, make_outputs, or_markdown,
}
use bytefetch.Worker.Process.{store_planner}

module _ {A : Type 0} {P : Db → Type 0} where
  pub lift-Keeps : (r : Result A) → Keeps P (lift r)
  unfolding lift
  lift-Keeps (ok a) = pure-Keeps a
  lift-Keeps (err e) = raise-Keeps e

module _ {P : Db → Type 0} (answer : Answer) (ext : Extracted) where
  pub make_outputs-Keeps :
      (formats : List Text) (outputs : Outputs) (primary : Text)
      → Keeps P (make_outputs answer ext formats outputs primary)
  unfolding make_outputs
  make_outputs-Keeps [] outputs primary = pure-Keeps (outputs, primary)
  make_outputs-Keeps (format ∷ formats) outputs primary =
      if-Keeps (is_empty format) _ _ (λ _. make_outputs-Keeps formats outputs primary)
        (λ _.
          if-Keeps (has_output format outputs) _ _ (λ _. make_outputs-Keeps formats outputs primary)
            (λ _.
              bind-Keeps (lift (answer.format_content ext format)) _
                (lift-Keeps (answer.format_content ext format))
                (λ content.
                  make_outputs-Keeps formats ((format, content) ∷ outputs)
                    (primary_of primary content))))

  pub or_markdown-Keeps : (made : Outputs × Text) → Keeps P (or_markdown answer ext made)
  unfolding or_markdown
  or_markdown-Keeps ([], primary) = search (keeps_rules, lift-Keeps)
  or_markdown-Keeps (o ∷ outputs, primary) = pure-Keeps _

module _ {P : Db → Type 0} (cfg : Config) where
  skip-Keeps : (url : Text) → Keeps P (should_skip_canonical has_seen_canonical url)
  unfolding should_skip_canonical has_seen_canonical
  skip-Keeps url = search keeps_rules

  plan_links-Keeps :
      (depth : ℕ) (links : List Text) → Keeps P (plan_links store_planner cfg depth links)
  unfolding plan_links
  plan_links-Keeps depth [] = pure-Keeps []
  plan_links-Keeps depth (link ∷ links) =
      bind-Keeps _ _
        (if-Keeps cfg.crawl.dedupe_cache _ _ (λ _. skip-Keeps link) (λ _. pure-Keeps false))
        (λ seen. bind-Keeps _ _ (plan_links-Keeps depth links) (λ rest. pure-Keeps _))

  task_count-Keeps : (job_id : ℕ) → Keeps P (task_count job_id)
  unfolding task_count
  task_count-Keeps job_id = query-Keeps _

  limit_tasks-Keeps :
      (job_id : ℕ) (tasks : List NewTask) → Keeps P (limit_tasks store_planner cfg job_id tasks)
  unfolding limit_tasks
  limit_tasks-Keeps job_id [] = pure-Keeps []
  limit_tasks-Keeps job_id (t ∷ ts) = search (keeps_rules, task_count-Keeps)

  pub build_link_tasks-Keeps :
      (job_id : ℕ) (links : List Text) (depth : ℕ)
      → Keeps P (build_link_tasks store_planner cfg job_id links depth)
  unfolding build_link_tasks
  build_link_tasks-Keeps job_id links depth =
      search (keeps_rules, plan_links-Keeps, limit_tasks-Keeps)

found-db : (P : Db → Type 0) (db : Db) (o : Option Job) → P db → P (found_job db o).1
found-db P db none h = h
found-db P db (some j) h = h

pub get_job-Keeps : {P : Db → Type 0} (job_id : ℕ) → Keeps P (get_job job_id)
unfolding get_job get_job_row
get_job-Keeps {P} job_id =
    statement-Keeps _ λ db h. found-db P db (find (λ j. j.id == job_id) db.jobs) h
