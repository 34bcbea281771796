-- ===== src/Server/Routes/Created.antt =====
-- internal/server/routes.go: the answers to a request for a crawl, and to one for a map.
use bytefetch.Prelude.{ℕ, ◌≡◌, ap, Text, codes, Bool, true, false, Option, none, some, [], arith}
use bytefetch.Json.{Object}
use bytefetch.Exec.{Result, World}
use bytefetch.Store.Rows.{JobType}
use bytefetch.Store.Db.{Db, has_job}
use bytefetch.Store.Finish.{quiet}
use bytefetch.Server.Http.{
  Response, respond, created, refused, Handler, reply, after_call, on_result, bad_request,
  invalid_text, checked, checked_as,
}
use bytefetch.Server.Request.{crawl_params, map_params}
use bytefetch.Server.Seeds.{seed_url, create_job_with_seeds}
use bytefetch.Server.Seeds.Inserts.{HasTask}
use bytefetch.Server.Seeds.Verdict.{was_seen, create_job_with_seeds_lem}
use bytefetch.Server.Validate.{
  Invalid, CrawlRequest, MapRequest, validate_crawl_request, validate_map_request,
}
use bytefetch.Server.Routes.{HandlerDeps, creation_failed, start_seed, handle_crawl, handle_map}

module _ (deps : HandlerDeps) where
  -- The address of the request stands in the dedupe cache, and the cache is on.
  abbrev pub was_crawled : Db → Text → Bool
  was_crawled db url = was_seen deps.net deps.config db (record {
    requested_url = url;
    depth = 0;
    abort_if_duplicate = deps.config.crawl.dedupe_cache;
  })

  -- The address under which the request's first task is kept.
  abbrev pub start_address : Text → Text
  start_address url = seed_url deps.net deps.config (record {
    requested_url = url;
    depth = 0;
    abort_if_duplicate = deps.config.crawl.dedupe_cache;
  })

  -- One of three answers: 400 where the request is invalid, 409 where its address was seen before,
  -- and else 200 with the id of a job that has a task for that address. Only the last one has an
  -- effect.
  abbrev pub Answered : Option Invalid → Text → ℕ → Db → Handler → Type 0
  Answered checked_to url new_id db h =
      ((e : Invalid)
        → checked_to ≡ some e
        → h (quiet db) ≡ (some (bad_request (invalid_text e)), quiet db))
      × (checked_to ≡ none
          → was_crawled db url ≡ true
          → h (quiet db)
            ≡ (some (respond 409 (refused (codes "seed URL already processed"))), quiet db))
      × (checked_to ≡ none
          → was_crawled db url ≡ false
          → (db' : Db) × (h (quiet db) ≡ (some (respond 200 (created new_id)), quiet db'))
            × HasTask new_id (start_address url) db')

  module _ (now new_id : ℕ) (type : JobType) (params : Object) (url : Text) (db : Db)
      (fresh : has_job new_id db ≡ false) where
    abbrev creation : Handler
    creation =
        after_call
          (create_job_with_seeds deps.net deps.config now new_id type params (start_seed deps url))
          (creation_failed deps (codes "seed URL already processed"))
          (λ id. reply (respond 200 (created id)))

    answer_to : Result ℕ × World → Option Response × World
    answer_to r =
        on_result (creation_failed deps (codes "seed URL already processed"))
          (λ id. reply (respond 200 (created id))) r.0 r.1

    invalid_text_of : Option Invalid → Text
    invalid_text_of none = []
    invalid_text_of (some e) = invalid_text e

    creation-Answered : (o : Option Invalid) → Answered o url new_id db (checked_as creation o)
    unfolding after_call reply creation_failed answer_to invalid_text_of
    creation-Answered (some e) = (
      (λ e' k. ap (λ o. (some (bad_request (invalid_text_of o)), quiet db)) k),
      (λ k. cc k),
      (λ k. cc k),
    )
    creation-Answered none =
        let (stop, go) =
          create_job_with_seeds_lem deps.net deps.config now new_id type params
            (start_seed deps url) db fresh in
        (
          (λ e k. cc k),
          (λ k seen. ap answer_to (stop (ground (arith, seen)))),
          (λ k new.
              let (db', run, task) = go (ground (arith, new)) in
              (db', ap answer_to run, task.0 new)),
        )

-- With no statement failing and a new id, a request for a crawl and one for a map each have three
-- answers: 400 where the request is invalid, 409 where its address was seen before and the dedupe
-- cache is on, with no effect, and else 200 with the id of a job that has a task for that address.
pub crawl_and_map-Answered :
    (deps : HandlerDeps) (now new_id : ℕ) (db : Db) (crawl : CrawlRequest) (site : MapRequest)
    → has_job new_id db ≡ false
    → Answered deps
        (validate_crawl_request deps.net crawl)
        crawl.url
        new_id
        db
        (handle_crawl deps now new_id (some crawl))
      × Answered deps
          (validate_map_request deps.net site)
          site.url
          new_id
          db
          (handle_map deps now new_id (some site))
unfolding handle_crawl handle_map checked
crawl_and_map-Answered deps now new_id db crawl site fresh = (
  creation-Answered deps now new_id JobType.crawl (crawl_params crawl) crawl.url db fresh
      (validate_crawl_request deps.net crawl),
  creation-Answered deps now new_id JobType.map (map_params site) site.url db fresh
      (validate_map_request deps.net site),
)
