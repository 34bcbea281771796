-- ===== src/Worker/Links/Plan.antt =====
-- Which tasks the links of a page become.
use bytefetch.Prelude.{
  ℕ, ◌-◌, ◌≤◌, ◌<◌, ◌≡◌, ◌≢◌, refl, sym, ap, subst, ◌∙◌, inl, inr, Text, is_empty, Bool, false, not,
  ◌&&◌, List, [], ◌∷◌, map, filter, length, ltb, if◌then◌else◌, Bool-cases, All, All-In, In,
  AllPairs, All-of-In, AllPairs-filter, filter-In, arith,
}
use bytefetch.Exec.{World, ok, pure}
use bytefetch.Exec.Steps.{bind-ok}
use bytefetch.Store.Rows.{NewTask, TaskStatus}
use bytefetch.Store.Documents.{should_skip_canonical}
use bytefetch.Config.{Config}
use bytefetch.Worker.Links.{
  Planner, unique_strings, link_task, plan_links, limit_tasks, build_link_tasks,
}
use bytefetch.Worker.Links.Limit.{
  within_limit, cap_tasks_lem, within_limit-nil, within_limit-All, within_limit-AllPairs,
  within_limit-length,
}
use bytefetch.Worker.Links.Unique.{unique_strings_lem}

-- In a world, a planner that answers each question without a change: which URLs have been seen, and
-- how many tasks a job has.
pub record Answers (st : Planner) (seen : Text → Bool) (count : ℕ → ℕ) (w : World) : Type 0 where
  pub has_seen : (url : Text) → st.has_seen_canonical url w ≡ (ok (seen url), w)
  pub counted : (job_id : ℕ) → st.task_count job_id w ≡ (ok (count job_id), w)

not_empty : (s : Text) → s ≢ [] → is_empty s ≡ false
not_empty [] ne = absurd (ne refl)
not_empty (c ∷ s) ne = refl

-- The links that the dedupe cache keeps out.
abbrev pub skips : Config → (Text → Bool) → Text → Bool
skips cfg seen link = cfg.crawl.dedupe_cache && seen link

module _ (st : Planner) (cfg : Config) (seen : Text → Bool) (count : ℕ → ℕ) (w : World)
    (answers : Answers st seen count w) where
  asked :
      (link : Text)
      → link ≢ []
      → (if cfg.crawl.dedupe_cache
            then should_skip_canonical st.has_seen_canonical link
            else pure false)
          w
        ≡ (ok (skips cfg seen link), w)
  unfolding should_skip_canonical pure
  asked link ne = elim (Bool-cases cfg.crawl.dedupe_cache) [
    | inl on ↦ rw (on, not_empty link ne) (answers.has_seen link)
    | inr off ↦ rw off
  ]

  plan_links_lem :
      (depth : ℕ) (links : List Text)
      → All (λ l. l ≢ []) links
      → plan_links st cfg depth links w
        ≡ (ok (map (link_task depth) (filter (λ l. not (skips cfg seen l)) links)), w)
  unfolding plan_links pure
  plan_links_lem depth [] h = refl
  plan_links_lem depth (link ∷ links) (ne, h) =
      bind-ok _ _ w (asked link ne)
      ∙ bind-ok _ _ w (plan_links_lem depth links h)
      ∙ elim (Bool-cases (skips cfg seen link)) [ inl old ↦ rw old | inr new ↦ rw new ]

  limit_tasks_lem :
      (job_id : ℕ) (tasks : List NewTask)
      → limit_tasks st cfg job_id tasks w
        ≡ (ok (within_limit cfg.job_defaults.max_tasks (count job_id) tasks), w)
  unfolding limit_tasks pure
  limit_tasks_lem job_id [] =
      ap (λ (ts : List NewTask). (ok ts, w))
        (sym (within_limit-nil cfg.job_defaults.max_tasks (count job_id)))
  limit_tasks_lem job_id (t ∷ ts) = elim (Bool-cases (ltb 0 cfg.job_defaults.max_tasks)) [
    | inl limited ↦ rw limited (
        bind-ok _ _ w (answers.counted job_id)
        ∙ ap (λ (us : List NewTask). (ok us, w))
            (cap_tasks_lem cfg.job_defaults.max_tasks (count job_id) (t ∷ ts)))
    | inr free ↦ rw free
  ]

  -- The links of a page become one queued task each, at the given depth, but for the empty link,
  -- the repeated ones, and, with the dedupe cache on, those that have been seen; a limit on the
  -- tasks of the job cuts the end off.
  pub build_link_tasks_lem :
      (job_id : ℕ) (links : List Text) (depth : ℕ)
      → build_link_tasks st cfg job_id links depth w ≡ (
        ok (
            within_limit cfg.job_defaults.max_tasks (count job_id) (
              map (link_task depth) (filter (λ l. not (skips cfg seen l)) (unique_strings links)))),
        w,
      )
  unfolding build_link_tasks
  build_link_tasks_lem job_id links depth =
      bind-ok _ _ w (
        plan_links_lem depth (unique_strings links)
          (All-of-In _ _ λ l m. (((unique_strings_lem links).0 l).0 m).1))
      ∙ limit_tasks_lem job_id _

map_links :
    (P : NewTask → Type 0) (depth : ℕ) (links : List Text)
    → ((l : Text) → In l links → P (link_task depth l))
    → All P (map (link_task depth) links)
map_links P depth [] h = tt
map_links P depth (l ∷ links) h = (h l (inl refl), map_links P depth links (λ k m. h k (inr m)))

map_links-distinct :
    (depth : ℕ) (links : List Text)
    → AllPairs ◌≢◌ links
    → AllPairs (λ t u. t.final_url ≢ u.final_url) (map (link_task depth) links)
map_links-distinct depth [] h = tt
map_links-distinct depth (l ∷ links) h =
    (map_links _ depth links (λ k m. All-In _ links h.0 m), map_links-distinct depth links h.1)

abbrev pub IsLinkTask : Config → (Text → Bool) → List Text → ℕ → NewTask → Type 0
IsLinkTask cfg seen links depth t =
    In t.final_url links
    × (t.final_url ≢ [])
    × (skips cfg seen t.final_url ≡ false)
    × (t.requested_url ≡ t.final_url)
    × (t.depth ≡ depth)
    × (t.status ≡ TaskStatus.queued)

-- Whatever the links, what `buildLinkTasks` makes of them are tasks for links of the page that are
-- not empty and that the cache does not keep out, queued at the given depth, no two for one URL; and
-- with a limit on the tasks of a job they fit in what is left of it.
pub build_link_tasks_sound :
    (st : Planner) (cfg : Config) (seen : Text → Bool) (count : ℕ → ℕ) (w : World)
    → Answers st seen count w
    → (job_id : ℕ) (links : List Text) (depth : ℕ) (tasks : List NewTask) (w' : World)
    → build_link_tasks st cfg job_id links depth w ≡ (ok tasks, w')
    → All (IsLinkTask cfg seen links depth) tasks
      × AllPairs (λ t u. t.final_url ≢ u.final_url) tasks
      × (0 < cfg.job_defaults.max_tasks → length tasks ≤ cfg.job_defaults.max_tasks - count job_id)
build_link_tasks_sound st cfg seen count w answers job_id links depth tasks w' e =
    let planned = filter (λ l. not (skips cfg seen l)) (unique_strings links) in
    let made : within_limit cfg.job_defaults.max_tasks (count job_id)
          (map (link_task depth) planned)
        ≡ tasks =
      cc (build_link_tasks_lem st cfg seen count w answers job_id links depth) in
    let (members, distinct, _) = unique_strings_lem links in
    (
      subst (All (IsLinkTask cfg seen links depth)) made (
          within_limit-All (IsLinkTask cfg seen links depth) max_tasks current
            (map (link_task depth) planned)
            (map_links (IsLinkTask cfg seen links depth) depth planned λ l m.
              let (kept, fresh) = filter-In _ (unique_strings links) m in
              let (here, ne) = (members l).0 kept in (here, ne, ground arith, refl, refl, refl))),
      subst (AllPairs _) made (
          within_limit-AllPairs (λ t u. t.final_url ≢ u.final_url) max_tasks current
            (map (link_task depth) planned)
            (map_links-distinct depth planned
              (AllPairs-filter _ _ (unique_strings links) distinct))),
      (λ limited.
          subst (λ ts. length ts ≤ max_tasks - current) made
            (within_limit-length max_tasks current (map (link_task depth) planned) limited)),
    )
  where
    max_tasks : ℕ
    max_tasks = cfg.job_defaults.max_tasks

    current : ℕ
    current = count job_id
