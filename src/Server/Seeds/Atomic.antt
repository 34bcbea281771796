-- ===== src/Server/Seeds/Atomic.antt =====
-- internal/server/jobs.go: `createJobWithSeeds` and the invariant of the database.
use bytefetch.Prelude.{ℕ, ◌≡◌, Text, Bool, List, [], ◌∷◌, if◌then◌else◌}
use bytefetch.Json.{Object}
use bytefetch.Exec.{World, Error, err, seed_already_processed, pure, raise, ◌>>=◌}
use bytefetch.Exec.Keeps.{Keeps, keeps_rules, in_tx-eq-err, bind-Keeps, pure-Keeps}
use bytefetch.Store.Rows.{JobType, NewTask}
use bytefetch.Store.Db.{Db}
use bytefetch.Store.Documents.{has_seen_canonical, should_skip_canonical}
use bytefetch.Store.Invariant.{IsValid}
use bytefetch.Store.Invariant.Jobs.{insert_job-IsValid}
use bytefetch.Store.Invariant.Tasks.{insert_tasks-IsValid}
use bytefetch.Url.Net.{UrlPackage}
use bytefetch.Config.{Config}
use bytefetch.Server.Seeds.{
  TaskSeed, seed_task, seed_seen, seed_tasks, insert_seed_tasks, create_job_with_seeds,
}

module _ (net : UrlPackage) (cfg : Config) where
  -- The call ends in an error only with the database as it was, since it is one transaction.
  pub create_job_with_seeds_atomic :
      (now new_id : ℕ) (type : JobType) (params : Object) (seeds : List TaskSeed) (w : World)
      (e : Error)
      → (create_job_with_seeds net cfg now new_id type params seeds w).0 ≡ err e
      → (create_job_with_seeds net cfg now new_id type params seeds w).1.db ≡ w.db
  unfolding create_job_with_seeds
  create_job_with_seeds_atomic now new_id type params seeds w e h = in_tx-eq-err _ w h

  should_skip-Keeps :
      {P : Db → Type 0} (url : Text) → Keeps P (should_skip_canonical has_seen_canonical url)
  unfolding should_skip_canonical has_seen_canonical
  should_skip-Keeps url = search keeps_rules

  seed_seen-Keeps : {P : Db → Type 0} (seed : TaskSeed) → Keeps P (seed_seen net cfg seed)
  unfolding seed_seen
  seed_seen-Keeps seed = search (keeps_rules, should_skip-Keeps)

  pub seed_tasks-Keeps :
      {P : Db → Type 0} (seeds : List TaskSeed) → Keeps P (seed_tasks net cfg seeds)
  unfolding seed_tasks
  seed_tasks-Keeps [] = pure-Keeps []
  seed_tasks-Keeps {P} (seed ∷ seeds) =
      bind-Keeps _ _ (seed_seen-Keeps seed) λ seen. seed_step-Keeps seen (seed_tasks-Keeps seeds)
    where
      seed_step-Keeps :
          (seen : Bool)
          → Keeps P (seed_tasks net cfg seeds)
          → Keeps P (
              if seen
              then (if seed.abort_if_duplicate
                  then raise seed_already_processed
                  else seed_tasks net cfg seeds)
              else (do tasks ← seed_tasks net cfg seeds; pure (seed_task net cfg seed ∷ tasks)))
      seed_step-Keeps seen rest = search (keeps_rules, rest)

  insert_seed_tasks-IsValid :
      (now job_id : ℕ) (ts : List NewTask) → Keeps IsValid (insert_seed_tasks net cfg now job_id ts)
  unfolding insert_seed_tasks
  insert_seed_tasks-IsValid now job_id [] = pure-Keeps tt
  insert_seed_tasks-IsValid now job_id (t ∷ ts) = insert_tasks-IsValid now job_id (t ∷ ts)

  -- Whatever fails on the way, the call that makes a job keeps the invariant of the database.
  pub create_job_with_seeds-IsValid :
      (now new_id : ℕ) (type : JobType) (params : Object) (seeds : List TaskSeed)
      → Keeps IsValid (create_job_with_seeds net cfg now new_id type params seeds)
  unfolding create_job_with_seeds
  create_job_with_seeds-IsValid now new_id type params seeds =
      search (keeps_rules, insert_job-IsValid, seed_tasks-Keeps, insert_seed_tasks-IsValid)
