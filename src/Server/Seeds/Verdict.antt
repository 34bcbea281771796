-- ===== src/Server/Seeds/Verdict.antt =====
-- internal/server/jobs.go: the answer of `createJobWithSeeds` where no statement fails.
use bytefetch.Prelude.{
  ℕ, ◌+◌, ◌≡◌, refl, ap, ◌∙◌, inl, inr, is_empty, same, Bool, true, false, not, ◌&&◌, ◌||◌, List,
  [], ◌∷◌, ◌++◌, map, filter, any, count_if, ltb, ◌==◌, if◌then◌else◌, if_true, if_false,
  Bool-cases, All, arith,
}
use bytefetch.Json.{Object}
use bytefetch.Exec.{
  Exec, ok, err, seed_already_processed, pure, raise, statement, query, update, ◌>>=◌,
}
use bytefetch.Exec.Steps.{bind-ok, bind-err, in_tx-ok, in_tx-err}
use bytefetch.Store.Rows.{JobType, NewTask}
use bytefetch.Store.Db.{Db, has_job}
use bytefetch.Store.Jobs.{new_job, insert_job_row, insert_job}
use bytefetch.Store.Tasks.{insert_tasks}
use bytefetch.Store.Documents.{has_seen_canonical, should_skip_canonical}
use bytefetch.Store.Finish.{quiet}
use bytefetch.Url.Net.{UrlPackage}
use bytefetch.Config.{Config}
use bytefetch.Server.Seeds.{
  TaskSeed, seed_url, seed_task, seed_seen, seed_tasks, insert_seed_tasks, create_job_with_seeds,
}
use bytefetch.Server.Seeds.Inserts.{HasTask, any-append-right, insert_task_rows-AllAdded}

module _ (net : UrlPackage) (cfg : Config) where
  -- The seed's address stands in the dedupe cache, and the cache is on.
  abbrev pub was_seen : Db → TaskSeed → Bool
  was_seen db seed =
      cfg.crawl.dedupe_cache
      && not (is_empty (seed_url net cfg seed))
      && ltb 0 (count_if (λ s. same s.canonical_url (seed_url net cfg seed)) db.dedupe)

  abbrev pub refused : Db → TaskSeed → Bool
  refused db seed = was_seen db seed && seed.abort_if_duplicate

  abbrev fresh_tasks : Db → List TaskSeed → List NewTask
  fresh_tasks db seeds = map (seed_task net cfg) (filter (λ s. not (was_seen db s)) seeds)

  seed_seen_lem :
      (seed : TaskSeed) (db : Db)
      → seed_seen net cfg seed (quiet db) ≡ (ok (was_seen db seed), quiet db)
  unfolding seed_seen should_skip_canonical has_seen_canonical pure query statement seed_url
  seed_seen_lem seed db = elim (Bool-cases cfg.crawl.dedupe_cache) [
    | inl on ↦ elim (Bool-cases (is_empty (seed_url net cfg seed))) [
      | inl none_at_all ↦ rw (on, none_at_all) refl
      | inr address ↦ rw (on, address) refl
    ]
    | inr off ↦ rw off refl
  ]

  seed_step :
      (seen abort stop : Bool) (t : NewTask) (ts : List NewTask) (rest : Exec (List NewTask))
      (db : Db)
      → rest (quiet db)
        ≡ (if stop then (err seed_already_processed, quiet db) else (ok ts, quiet db))
      → (if seen
            then (if abort then raise seed_already_processed else rest)
            else (do tasks ← rest; pure (t ∷ tasks)))
          (quiet db)
        ≡ (if (seen && abort) || stop
            then (err seed_already_processed, quiet db)
            else (ok (if seen then ts else t ∷ ts), quiet db))
  unfolding pure raise
  seed_step true true stop t ts rest db h = refl
  seed_step true false stop t ts rest db h = h
  seed_step false abort true t ts rest db h = bind-err rest (λ tasks. pure (t ∷ tasks)) (quiet db) h
  seed_step false abort false t ts rest db h = bind-ok rest (λ tasks. pure (t ∷ tasks)) (quiet db) h

  map_skip :
      (seen : Bool) (seed : TaskSeed) (seeds : List TaskSeed)
      → (if seen
          then map (seed_task net cfg) seeds
          else seed_task net cfg seed ∷ map (seed_task net cfg) seeds)
        ≡ map (seed_task net cfg) (if not seen then seed ∷ seeds else seeds)
  map_skip true seed seeds = refl
  map_skip false seed seeds = refl

  seed_tasks_lem :
      (seeds : List TaskSeed) (db : Db)
      → seed_tasks net cfg seeds (quiet db) ≡ (
          if any (refused db) seeds
          then (err seed_already_processed, quiet db)
          else (ok (fresh_tasks db seeds), quiet db))
  unfolding seed_tasks pure raise
  seed_tasks_lem [] db = refl
  seed_tasks_lem (seed ∷ seeds) db =
      bind-ok _ _ (quiet db) (seed_seen_lem seed db)
      ∙ seed_step (was_seen db seed) seed.abort_if_duplicate (any (refused db) seeds)
          (seed_task net cfg seed) (fresh_tasks db seeds) (seed_tasks net cfg seeds) db
          (seed_tasks_lem seeds db)
      ∙ ap
          (λ ts.
            if refused db seed || any (refused db) seeds
            then (err seed_already_processed, quiet db)
            else (ok ts, quiet db))
          (map_skip (was_seen db seed) seed (filter (λ s. not (was_seen db s)) seeds))

  -- The row of the new job.
  abbrev with_job : ℕ → ℕ → JobType → Object → Db → Db
  with_job now new_id type params db = record db {
    jobs =
        db.jobs
        ++ new_job new_id type params now (now + cfg.job_defaults.ttl)
            (now + cfg.job_defaults.deadline)
          ∷ [];
  }

  insert_job_lem :
      (now new_id : ℕ) (type : JobType) (params : Object) (db : Db)
      → has_job new_id db ≡ false
      → (insert_job new_id now type params
            (now + cfg.job_defaults.ttl)
            (now + cfg.job_defaults.deadline)
            (quiet db)
          ≡ (ok new_id, quiet (with_job now new_id type params db)))
        × (has_job new_id (with_job now new_id type params db) ≡ true)
  unfolding insert_job insert_job_row has_job statement new_job
  insert_job_lem now new_id type params db fresh = (
    rw fresh refl,
    any-append-right (λ j. j.id == new_id) db.jobs
        (new_job new_id type params now (now + cfg.job_defaults.ttl)
          (now + cfg.job_defaults.deadline))
        (ground arith),
  )

  insert_seed_tasks_lem :
      (now job_id : ℕ) (ts : List NewTask) (db : Db)
      → has_job job_id db ≡ true
      → (db' : Db) × (insert_seed_tasks net cfg now job_id ts (quiet db) ≡ (ok tt, quiet db'))
        × All (λ t. HasTask job_id t.final_url db') ts
  unfolding insert_seed_tasks insert_tasks pure update statement ◌>>=◌
  insert_seed_tasks_lem now job_id [] db known = (db, refl, tt)
  insert_seed_tasks_lem now job_id (t ∷ ts) db known =
      let (db', run, all, _) = insert_task_rows-AllAdded now job_id (t ∷ ts) db known in
      (db', run, all)

  unseen_first :
      (new_id : ℕ) (db' : Db) (seen : Bool) (s : TaskSeed) (seeds : List TaskSeed)
      → All
          (λ t. HasTask new_id t.final_url db')
          (map (seed_task net cfg) (if not seen then s ∷ seeds else seeds))
      → (seen ≡ false → HasTask new_id (seed_url net cfg s) db')
        × All (λ t. HasTask new_id t.final_url db') (map (seed_task net cfg) seeds)
  unseen_first new_id db' true s seeds h = ((λ new. cc), h)
  unseen_first new_id db' false s seeds (here, h) = ((λ new. here), h)

  fresh_HasTask :
      (new_id : ℕ) (db db' : Db) (seeds : List TaskSeed)
      → All (λ t. HasTask new_id t.final_url db') (fresh_tasks db seeds)
      → All (λ s. was_seen db s ≡ false → HasTask new_id (seed_url net cfg s) db') seeds
  fresh_HasTask new_id db db' [] h = tt
  fresh_HasTask new_id db db' (s ∷ seeds) h =
      let (here, rest) = unseen_first new_id db' (was_seen db s) s _ h in
      (here, fresh_HasTask new_id db db' seeds rest)

  -- With no statement failing and a new id, the call that makes a job is refused, and changes
  -- nothing, where a seed that must be new stands in the dedupe cache; elsewhere it returns the job,
  -- and every seed that was not seen before has a task of that job under its canonical address.
  pub create_job_with_seeds_lem :
      (now new_id : ℕ) (type : JobType) (params : Object) (seeds : List TaskSeed) (db : Db)
      → has_job new_id db ≡ false
      → (any (refused db) seeds ≡ true
          → create_job_with_seeds net cfg now new_id type params seeds (quiet db)
            ≡ (err seed_already_processed, quiet db))
        × (any (refused db) seeds ≡ false
            → (db' : Db) × (create_job_with_seeds net cfg now new_id type params seeds (quiet db)
                ≡ (ok new_id, quiet db'))
              × All (λ s. was_seen db s ≡ false → HasTask new_id (seed_url net cfg s) db') seeds)
  unfolding create_job_with_seeds pure
  create_job_with_seeds_lem now new_id type params seeds db fresh =
      let db1 = with_job now new_id type params db in
      let (inserted, known) = insert_job_lem now new_id type params db fresh in
      let planned = seed_tasks_lem seeds db1 in
      let (db2, filled, all) = insert_seed_tasks_lem now new_id (fresh_tasks db1 seeds) db1 known in
      (
        λ stop. in_tx-err _ db (
            bind-ok _ _ (quiet db) inserted
            ∙ bind-err _ _ (quiet db1) (planned ∙ if_true _ _ (any (refused db) seeds) stop)),
        λ go. (
          db2,
          in_tx-ok _ db (
              bind-ok _ _ (quiet db) inserted
              ∙ bind-ok _ _ (quiet db1) (planned ∙ if_false _ _ (any (refused db) seeds) go)
              ∙ bind-ok _ _ (quiet db1) filled),
          fresh_HasTask new_id db db2 seeds all,
        ),
      )
