-- ===== src/Worker/Links.antt =====
-- internal/worker/worker.go: the links that a page leads to, and the tasks that are made of them.
pub mod Unique
pub mod Limit
pub mod Plan
use bytefetch.Prelude.{
  ℕ, ◌-◌, Text, is_empty, has, Bool, true, false, ◌||◌, List, [], ◌∷◌, ◌++◌, map, length, take, ltb,
  leb, if◌then◌else◌,
}
use bytefetch.Exec.{Exec, pure, ◌>>=◌}
use bytefetch.Store.Rows.{NewTask, TaskStatus}
use bytefetch.Store.Documents.{should_skip_canonical}
use bytefetch.Config.{Config}

-- The loop of `uniqueStrings`; `seen` holds what it has kept.
unfoldable pub unique_from : List Text → List Text → List Text
unique_from seen [] = []
unique_from seen (v ∷ vs) =
    let skipped = unique_from seen vs in
    let kept = v ∷ unique_from (v ∷ seen) vs in if is_empty v || has seen v then skipped else kept

unfoldable pub unique_strings : List Text → List Text
unfolding unique_from
unique_strings values = unique_from [] values

-- `appendUniqueLinks`: the links of `extra` that are new, once each, come after those of
-- `existing`.
unfoldable pub append_unique_links : List Text → List Text → List Text
unfolding unique_from
append_unique_links existing extra = existing ++ unique_from existing extra

-- The interface `taskPlanner`.
pub record Planner : Type 0 where
  pub has_seen_canonical : Text → Exec Bool
  pub task_count : ℕ → Exec ℕ

abbrev pub link_task : ℕ → Text → NewTask
link_task depth link = record {
  requested_url = link;
  final_url = link;
  depth = depth;
  status = TaskStatus.queued;
}

-- What the limit on a job's tasks leaves of the new ones.
unfoldable pub cap_tasks : ℕ → ℕ → List NewTask → List NewTask
cap_tasks max_tasks current tasks =
    if leb max_tasks current
    then []
    else if ltb (max_tasks - current) (length tasks)
    then take (max_tasks - current) tasks
    else tasks

module _ (st : Planner) (cfg : Config) where
  -- The loop of `buildLinkTasks` over the unique links.
  unfoldable pub plan_links : ℕ → List Text → Exec (List NewTask)
  plan_links depth [] = pure []
  plan_links depth (link ∷ links) = do
    seen ←
        (if cfg.crawl.dedupe_cache
          then should_skip_canonical st.has_seen_canonical link
          else pure false)
    rest ← plan_links depth links
    pure (if seen then rest else link_task depth link ∷ rest)

  unfoldable pub limit_tasks : ℕ → List NewTask → Exec (List NewTask)
  limit_tasks job_id [] = pure []
  limit_tasks job_id (t ∷ ts) =
      if ltb 0 cfg.job_defaults.max_tasks
      then (do
        current ← st.task_count job_id
        pure (cap_tasks cfg.job_defaults.max_tasks current (t ∷ ts)))
      else pure (t ∷ ts)

  -- `buildLinkTasks`. Its test for no links at all is the loop over none.
  unfoldable pub build_link_tasks : ℕ → List Text → ℕ → Exec (List NewTask)
  build_link_tasks job_id links depth = do
    tasks ← plan_links depth (unique_strings links)
    limit_tasks job_id tasks
