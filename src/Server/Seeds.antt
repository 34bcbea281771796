-- ===== src/Server/Seeds.antt =====
-- internal/server/jobs.go: a job and the tasks of its seeds, in one transaction.
pub mod Atomic
pub mod Inserts
pub mod Verdict
use bytefetch.Prelude.{
  ℕ, Text, Bool, true, false, Option, none, some, List, [], ◌∷◌, ◌+◌, if◌then◌else◌,
}
use bytefetch.Json.{Object}
use bytefetch.Exec.{Result, ok, err, seed_already_processed, Exec, pure, raise, in_tx, ◌>>=◌, ◌>>◌}
use bytefetch.Store.Rows.{JobType, NewTask, TaskStatus}
use bytefetch.Store.Jobs.{insert_job}
use bytefetch.Store.Tasks.{insert_tasks}
use bytefetch.Store.Documents.{has_seen_canonical, should_skip_canonical}
use bytefetch.Url.Net.{UrlPackage}
use bytefetch.Url.Canonical.{canonicalize}
use bytefetch.Config.{Config}

-- `taskSeed`
pub record TaskSeed : Type 0 where
  pub requested_url : Text
  pub depth : ℕ
  pub abort_if_duplicate : Bool

module _ (net : UrlPackage) (cfg : Config) where
  -- The address under which a seed is known: its canonical form where it has one.
  unfoldable pub seed_url : TaskSeed → Text
  seed_url seed = elim (canonicalize net seed.requested_url cfg.crawl.strip_query) [
    | none ↦ seed.requested_url
    | some canon ↦ canon
  ]

  abbrev pub seed_task : TaskSeed → NewTask
  seed_task seed = record {
    requested_url = seed.requested_url;
    final_url = seed_url seed;
    depth = seed.depth;
    status = TaskStatus.queued;
  }

  -- Whether the seed was processed before, asked only where the cache is on.
  unfoldable pub seed_seen : TaskSeed → Exec Bool
  seed_seen seed =
      if cfg.crawl.dedupe_cache
      then should_skip_canonical has_seen_canonical (seed_url seed)
      else pure false

  -- The loop of `createJobWithSeeds`.
  unfoldable pub seed_tasks : List TaskSeed → Exec (List NewTask)
  seed_tasks [] = pure []
  seed_tasks (seed ∷ seeds) = do
    seen ← seed_seen seed
    let rest = seed_tasks seeds
    if seen
        then (if seed.abort_if_duplicate then raise seed_already_processed else rest)
        else (do tasks ← rest; pure (seed_task seed ∷ tasks))

  unfoldable pub insert_seed_tasks : ℕ → ℕ → List NewTask → Exec Unit
  insert_seed_tasks now job_id [] = pure tt
  insert_seed_tasks now job_id (t ∷ ts) = insert_tasks now job_id (t ∷ ts)

  -- `createJobWithSeeds`; `new_id` is the UUID that the database makes.
  unfoldable pub create_job_with_seeds : ℕ → ℕ → JobType → Object → List TaskSeed → Exec ℕ
  create_job_with_seeds now new_id job_type params seeds = in_tx (do
    job_id ←
        insert_job new_id now job_type params (now + cfg.job_defaults.ttl)
          (now + cfg.job_defaults.deadline)
    tasks ← seed_tasks seeds
    insert_seed_tasks now job_id tasks
    pure job_id)
