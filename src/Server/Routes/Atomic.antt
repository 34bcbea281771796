-- ===== src/Server/Routes/Atomic.antt =====
-- internal/server/routes.go: what a request does to the database.
use bytefetch.Prelude.{
  ℕ, zero, suc, ◌≡◌, ◌⊎◌, inl, inr, refl, Text, Bool, true, false, Option, none, some, List, ◌∷◌,
  if◌then◌else◌, List-cases, ◌++◌,
}
use bytefetch.Json.{Object}
use bytefetch.Exec.{Error, Result, ok, err, World, Exec}
use bytefetch.Exec.Keeps.{Keeps, keeps_rules, pure-Keeps, if-Keeps, bind-Keeps}
use bytefetch.Store.Rows.{JobType}
use bytefetch.Store.Db.{Db}
use bytefetch.Store.Jobs.{job_stats}
use bytefetch.Store.Listing.{
  Keys, list_documents, list_documents_after, list_mapped, list_mapped_after,
}
use bytefetch.Worker.Process.Parts.{get_job-Keeps}
use bytefetch.Server.Http.{
  Body, created, Response, respond, Handler, reply, after_call, on_result, checked_as, checked,
}
use bytefetch.Server.Paging.{
  document_page, mapped_page, export_loop, last_id, export_documents, export_mapped,
}
use bytefetch.Server.Request.{Query, batch_params, crawl_params, map_params}
use bytefetch.Server.Seeds.{TaskSeed, create_job_with_seeds}
use bytefetch.Server.Seeds.Atomic.{create_job_with_seeds_atomic}
use bytefetch.Server.Validate.{Invalid, ScrapeRequest}
use bytefetch.Server.Routes.{
  HandlerDeps, batch_seeds, start_seed, creation_failed, Request, scrape, batch_scrape, crawl,
  map_site, get_job_view, get_documents, get_map, get_export, handle_scrape, handle_batch,
  handle_crawl, handle_map, handle_job, handle_documents, handle_mapped, handle_export, export_of,
  exported, handle,
}

-- Whatever fails, a request that begins at a database with the property ends at one.
pub record Serves (P : Db → Type 0) (h : Handler) : Type 0 where
  pub run : (w : World) → P w.db → P (h w).1.db

module _ {P : Db → Type 0} where
  pub reply-Serves : (r : Response) → Serves P (reply r)
  unfolding reply
  reply-Serves r = record { run = λ w k. k }

  on_result-Serves :
      {A : Type 0} (fail : Error → Response) (next : A → Handler) (r : Result A) (w : World)
      → ((a : A) → Serves P (next a))
      → P w.db
      → P (on_result fail next r w).1.db
  on_result-Serves fail next (ok a) w later k = (later a).run w k
  on_result-Serves fail next (err e) w later k = k

  pub after_call-Serves :
      {A : Type 0} (m : Exec A) (fail : Error → Response) (next : A → Handler)
      → Keeps P m
      → ((a : A) → Serves P (next a))
      → Serves P (after_call m fail next)
  unfolding after_call
  after_call-Serves m fail next now later = record {
    run = λ w k. on_result-Serves fail next (m w).0 (m w).1 later (now.run w k);
  }

  checked_as-Serves :
      (next : Handler) (o : Option Invalid) → Serves P next → Serves P (checked_as next o)
  checked_as-Serves next none k = k
  checked_as-Serves next (some e) k = reply-Serves _

  pub checked-Serves :
      {R : Type 0} (validate : R → Option Invalid) (body : Option R) (next : R → Handler)
      → ((req : R) → Serves P (next req))
      → Serves P (checked validate body next)
  unfolding checked
  checked-Serves validate none next k = reply-Serves _
  checked-Serves validate (some req) next k = checked_as-Serves (next req) (validate req) (k req)

  if-Serves : (b : Bool) (h k : Handler) → Serves P h → Serves P k → Serves P (if b then h else k)
  if-Serves true h k m n = m
  if-Serves false h k m n = n

  exported-Serves :
      (deps : HandlerDeps) {A : Type 0} (body : List A → ℕ → Body) (o : Option (List A × ℕ))
      → Serves P (exported deps body o)
  exported-Serves deps body none = record { run = λ w k. k }
  exported-Serves deps body (some found) = record { run = λ w k. k }

  job_stats-Reads : (id : ℕ) → Keeps P (job_stats id)
  unfolding job_stats
  job_stats-Reads id = search keeps_rules

  module _ (collate : Text → Text → Bool) (id limit : ℕ) (sort order_by : Text) where
    document_page-Reads : (c : ℕ) → Keeps P (document_page collate id limit sort order_by c)
    unfolding document_page list_documents list_documents_after
    document_page-Reads c = search keeps_rules

    mapped_page-Reads : (c : ℕ) → Keeps P (mapped_page collate id limit sort order_by c)
    unfolding mapped_page list_mapped list_mapped_after
    mapped_page-Reads c = search keeps_rules

  export_loop-Reads :
      {A : Type 0} (k : Keys A) (page : ℕ → Exec (List A)) (all : Bool)
      → ((c : ℕ) → Keeps P (page c))
      → (rounds c : ℕ) (out : List A) → Keeps P (export_loop k page all rounds c out)
  unfolding export_loop
  export_loop-Reads k page all h zero c out = pure-Keeps none
  export_loop-Reads k page all h (suc rounds) c out = bind-Keeps _ _ (h c) λ rows.
      elim (List-cases rows) [
        | inl e ↦ rw e (pure-Keeps _)
        | inr (r, rs, e) ↦ rw e (
            if-Keeps all _ _
              (λ _. export_loop-Reads k page all h rounds (last_id k c (r ∷ rs)) (out ++ r ∷ rs))
              (λ _. pure-Keeps _))
      ]

ruleset serves_rules = (
  reply-Serves, after_call-Serves, checked-Serves, if-Serves, exported-Serves, get_job-Keeps,
  job_stats-Reads, document_page-Reads, mapped_page-Reads, export_loop-Reads,
)

module _ (deps : HandlerDeps) {P : Db → Type 0} where
  pub handle_scrape-Reads : (body : Option ScrapeRequest) → Serves P (handle_scrape deps body)
  unfolding handle_scrape
  handle_scrape-Reads body = search serves_rules

  pub handle_job-Reads : (id : ℕ) → Serves P (handle_job deps id)
  unfolding handle_job
  handle_job-Reads id = search serves_rules

  pub handle_documents-Reads : (id : ℕ) (q : Query) → Serves P (handle_documents deps id q)
  unfolding handle_documents
  handle_documents-Reads id q = search serves_rules

  pub handle_mapped-Reads : (id : ℕ) (q : Query) → Serves P (handle_mapped deps id q)
  unfolding handle_mapped
  handle_mapped-Reads id q = search serves_rules

  pub handle_export-Reads : (rounds id : ℕ) (q : Query) → Serves P (handle_export deps rounds id q)
  unfolding handle_export export_of export_documents export_mapped
  handle_export-Reads rounds id q = search serves_rules depth 12

-- The database is as it was, or the answer is the id of a new job.
abbrev pub IsSafe : World → Option Response × World → Type 0
IsSafe w r = (r.1.db ≡ w.db) ⊎ ((id : ℕ) × (r.0 ≡ some (respond 200 (created id))))

reader-IsSafe : (h : Handler) → ((P : Db → Type 0) → Serves P h) → (w : World) → IsSafe w (h w)
reader-IsSafe h k w = inl ((k (λ d. d ≡ w.db)).run w refl)

checked-IsSafe :
    {R : Type 0} (validate : R → Option Invalid) (body : Option R) (next : R → Handler) (w : World)
    → ((req : R) → IsSafe w (next req w))
    → IsSafe w (checked validate body next w)
unfolding checked reply
checked-IsSafe validate none next w k = inl refl
checked-IsSafe {R} validate (some req) next w k = safe (validate req)
  where
    safe : (o : Option Invalid) → IsSafe w (checked_as (next req) o w)
    safe none = k req
    safe (some e) = inl refl

module _ (deps : HandlerDeps) (now new_id : ℕ) where
  creation-IsSafe :
      (type : JobType) (params : Object) (seeds : List TaskSeed) (text : Text) (w : World)
      → IsSafe w (
          after_call
            (create_job_with_seeds deps.net deps.config now new_id type params seeds)
            (creation_failed deps text)
            (λ id. reply (respond 200 (created id)))
            w)
  unfolding after_call reply
  creation-IsSafe type params seeds text w =
      let m = create_job_with_seeds deps.net deps.config now new_id type params seeds in
      safe (m w).0 (m w).1
        (create_job_with_seeds_atomic deps.net deps.config now new_id type params seeds w)
    where
      safe :
          (r : Result ℕ) (v : World)
          → ((e : Error) → r ≡ err e → v.db ≡ w.db)
          → IsSafe w
              (on_result (creation_failed deps text) (λ id. reply (respond 200 (created id))) r v)
      safe (ok id) v h = inr (id, refl)
      safe (err e) v h = inl (h e refl)

creation :
    {P : Db → Type 0} {m : Exec ℕ} (fail : Error → Response)
    → Keeps P m
    → Serves P (after_call m fail (λ id. reply (respond 200 (created id))))
creation fail k = after_call-Serves _ fail _ k (λ id. reply-Serves _)

module _ (deps : HandlerDeps) (rounds now new_id : ℕ) where
  -- Whatever the request is and whatever fails, the database is as it was, or the answer is the id
  -- of a new job: no answer but that one has an effect.
  pub handle-IsSafe :
      (request : Request) (w : World) → IsSafe w (handle deps rounds now new_id request w)
  unfolding handle handle_batch handle_crawl handle_map
  handle-IsSafe (scrape body) w =
      reader-IsSafe (handle_scrape deps body) (λ P. handle_scrape-Reads deps body) w
  handle-IsSafe (batch_scrape body) w =
      checked-IsSafe _ body _ w (λ req. creation-IsSafe deps now new_id _ _ _ _ w)
  handle-IsSafe (crawl body) w =
      checked-IsSafe _ body _ w (λ req. creation-IsSafe deps now new_id _ _ _ _ w)
  handle-IsSafe (map_site body) w =
      checked-IsSafe _ body _ w (λ req. creation-IsSafe deps now new_id _ _ _ _ w)
  handle-IsSafe (get_job_view id) w =
      reader-IsSafe (handle_job deps id) (λ P. handle_job-Reads deps id) w
  handle-IsSafe (get_documents id q) w =
      reader-IsSafe (handle_documents deps id q) (λ P. handle_documents-Reads deps id q) w
  handle-IsSafe (get_map id q) w =
      reader-IsSafe (handle_mapped deps id q) (λ P. handle_mapped-Reads deps id q) w
  handle-IsSafe (get_export id q) w =
      reader-IsSafe (handle_export deps rounds id q) (λ P. handle_export-Reads deps rounds id q) w

  -- A request keeps what the call that makes a job keeps.
  pub handle-Serves :
      {P : Db → Type 0}
      → ((type : JobType) (params : Object) (seeds : List TaskSeed)
          → Keeps P (create_job_with_seeds deps.net deps.config now new_id type params seeds))
      → (request : Request) → Serves P (handle deps rounds now new_id request)
  unfolding handle handle_batch handle_crawl handle_map
  handle-Serves {P} k (scrape body) = handle_scrape-Reads deps body
  handle-Serves {P} k (batch_scrape body) =
      checked-Serves _ body _
        (λ req. creation _ (k JobType.batch_scrape (batch_params req) (batch_seeds deps req.urls)))
  handle-Serves {P} k (crawl body) =
      checked-Serves _ body _
        (λ req. creation _ (k JobType.crawl (crawl_params req) (start_seed deps req.url)))
  handle-Serves {P} k (map_site body) =
      checked-Serves _ body _
        (λ req. creation _ (k JobType.map (map_params req) (start_seed deps req.url)))
  handle-Serves {P} k (get_job_view id) = handle_job-Reads deps id
  handle-Serves {P} k (get_documents id q) = handle_documents-Reads deps id q
  handle-Serves {P} k (get_map id q) = handle_mapped-Reads deps id q
  handle-Serves {P} k (get_export id q) = handle_export-Reads deps rounds id q
