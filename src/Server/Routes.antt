-- ===== src/Server/Routes.antt =====
-- internal/server/routes.go: the handlers of the API. A handler takes the parsed request and the
-- database, and returns the response with the new database. A body that `BodyParser` refuses is
-- `none`, and a value that is missing from a query is the empty text.
pub mod Atomic
pub mod Created
pub mod Listed
use bytefetch.Prelude.{
  ℕ, Text, codes, is_empty, same, has, Bool, true, false, not, ◌&&◌, Option, none, some, List, [],
  ◌∷◌, map, ltb, if◌then◌else◌,
}
use bytefetch.Int.{ℤ}
use bytefetch.Json.{Json, bool, num, str, arr, Elems, nil, cons, Object}
use bytefetch.Exec.{Error, seed_already_processed, Result, ok, err, World, Exec}
use bytefetch.Store.Rows.{Job, JobType, JobStatus, JobStats, DocumentRow, MappedRow}
use bytefetch.Store.Jobs.{get_job, job_stats}
use bytefetch.Store.Listing.{document_keys, mapped_keys}
use bytefetch.Types.{format_values}
use bytefetch.Url.Net.{UrlPackage}
use bytefetch.Config.{Config}
use bytefetch.Worker.Pages.{Page, Extracted}
use bytefetch.Worker.Process.{error_text}
use bytefetch.Server.Http.{
  JobView, view_of, Body, message, scraped, created, refused, job_view, documents, links,
  document_lines, mapped_lines, Response, respond, bad_request, not_found, internal_error, Handler,
  reply, after_call, failed, invalid_text, checked,
}
use bytefetch.Server.Request.{
  batch_params, crawl_params, map_params, Query, or_else, query_bool, pagination, sort_of, order_of,
}
use bytefetch.Server.Outputs.{
  DocumentOutput, DocumentResponse, Contents, formats_from_job, document_from_row, ordered_outputs,
  render_outputs,
}
use bytefetch.Server.Paging.{last_id, document_page, mapped_page, export_documents, export_mapped}
use bytefetch.Server.Query.{Pagination, parse_pagination, next_cursor_header}
use bytefetch.Server.Seeds.{TaskSeed, create_job_with_seeds}
use bytefetch.Server.Validate.{
  ScrapeRequest, BatchScrapeRequest, CrawlRequest, MapRequest, Invalid, bad_url, bad_format,
  bad_depth, no_urls, validate_scrape_request, validate_batch_request, validate_crawl_request,
  validate_map_request,
}

-- The targets of the rows, each at its first place.
unfoldable pub targets : List Text → List MappedRow → List Text
targets seen [] = []
targets seen (r ∷ rows) =
    let skipped = targets seen rows in
    let kept = r.target_url ∷ targets (r.target_url ∷ seen) rows in
    if has seen r.target_url then skipped else kept

-- `HandlerDeps`, with what the handlers use of the other packages: the fetcher, `extract.Extract`,
-- `format.FormatContent`, `time.Time.Format`, net/url and the database's collation.
pub record HandlerDeps : Type 0 where
  pub config : Config
  pub net : UrlPackage
  pub collate : Text → Text → Bool
  pub format_time : ℕ → Text
  pub fetch : Text → Bool → Result Page
  pub extract : Text → Text → Result Extracted
  pub format_content : Extracted → Text → Result Text

-- The requests, a job's id being that of the path.
pub data Request : Type 0 where
  scrape : Option ScrapeRequest → Request
  batch_scrape : Option BatchScrapeRequest → Request
  crawl : Option CrawlRequest → Request
  map_site : Option MapRequest → Request
  get_job_view : ℕ → Request
  get_documents : ℕ → Query → Request
  get_map : ℕ → Query → Request
  get_export : ℕ → Query → Request

module _ (deps : HandlerDeps) where
  unfoldable pub scraped_page : ScrapeRequest → Extracted → Result Contents → Response
  scraped_page req ext (err e) = bad_request (error_text e)
  scraped_page req ext (ok outputs) = respond 200 (
      scraped (ordered_outputs outputs (format_values req.output_formats (codes "markdown")))
        ext.meta)

  unfoldable pub scrape_page : ScrapeRequest → Result Extracted → Response
  scrape_page req (err e) = internal_error (error_text e)
  scrape_page req (ok ext) = scraped_page req ext (
      render_outputs (deps.format_content ext) (format_values req.output_formats (codes "markdown"))
        [])

  unfoldable pub scrape_result : ScrapeRequest → Result Page → Response
  scrape_result req (err e) = bad_request (error_text e)
  scrape_result req (ok page) = scrape_page req (deps.extract page.final_url page.body)

  -- `POST /scrape`
  unfoldable pub handle_scrape : Option ScrapeRequest → Handler
  handle_scrape body =
      checked (validate_scrape_request deps.net) body
        (λ req. reply (scrape_result req (deps.fetch req.url req.use_js)))

  -- What the three handlers that make a job do with an error.
  unfoldable pub creation_failed : Text → Error → Response
  creation_failed text seed_already_processed = respond 409 (refused text)
  creation_failed text e = failed e

  unfoldable pub batch_seeds : List Text → List TaskSeed
  batch_seeds = map (λ u. record { requested_url = u; depth = 0; abort_if_duplicate = false })

  abbrev pub start_seed : Text → List TaskSeed
  start_seed url =
      record { requested_url = url; depth = 0; abort_if_duplicate = deps.config.crawl.dedupe_cache }
      ∷ []

  -- `POST /batch/scrape`
  unfoldable pub handle_batch : ℕ → ℕ → Option BatchScrapeRequest → Handler
  handle_batch now new_id body = checked (validate_batch_request deps.net) body (λ req.
      after_call
        (create_job_with_seeds deps.net deps.config now new_id JobType.batch_scrape
          (batch_params req) (batch_seeds req.urls))
        (creation_failed (codes "seed url already processed"))
        (λ id. reply (respond 200 (created id))))

  -- `POST /crawl`
  unfoldable pub handle_crawl : ℕ → ℕ → Option CrawlRequest → Handler
  handle_crawl now new_id body = checked (validate_crawl_request deps.net) body (λ req.
      after_call
        (create_job_with_seeds deps.net deps.config now new_id JobType.crawl (crawl_params req)
          (start_seed req.url))
        (creation_failed (codes "seed URL already processed"))
        (λ id. reply (respond 200 (created id))))

  -- `POST /map`
  unfoldable pub handle_map : ℕ → ℕ → Option MapRequest → Handler
  handle_map now new_id body = checked (validate_map_request deps.net) body (λ req.
      after_call
        (create_job_with_seeds deps.net deps.config now new_id JobType.map (map_params req)
          (start_seed req.url))
        (creation_failed (codes "seed URL already processed"))
        (λ id. reply (respond 200 (created id))))

  abbrev pub job_missing : Error → Response
  job_missing e = not_found (codes "job not found")

  -- `GET /jobs/:id`
  unfoldable pub handle_job : ℕ → Handler
  handle_job id = after_call (get_job id) job_missing (λ job.
      after_call (job_stats id) failed
        (λ stats. reply (respond 200 (job_view (view_of job stats)))))

  unfoldable pub responses : Job → List DocumentRow → List DocumentResponse
  responses job = map (λ r. document_from_row deps.format_time r job (formats_from_job job))

  -- `GET /jobs/:id/documents`
  unfoldable pub handle_documents : ℕ → Query → Handler
  handle_documents id q = after_call (get_job id) job_missing (λ job.
      after_call
        (document_page deps.collate id (pagination q).limit (sort_of q) (order_of q)
          (pagination q).after)
        failed
        (λ rows.
          reply (respond 200 (documents (responses job rows) (last_id document_keys 0 rows)))))

  -- `GET /jobs/:id/map`
  unfoldable pub handle_mapped : ℕ → Query → Handler
  handle_mapped id q =
      after_call
        (mapped_page deps.collate id (pagination q).limit (sort_of q) (order_of q)
          (pagination q).after)
        failed
        (λ rows. reply (respond 200 (links rows (last_id mapped_keys 0 rows) (targets [] rows))))

  abbrev pub exported : {A : Type 0} → (List A → ℕ → Body) → Option (List A × ℕ) → Handler
  exported body none w = (none, w)
  exported body (some (rows, cursor)) w = (
    some
        (record { status = 200; next_cursor = next_cursor_header cursor; body = body rows cursor }),
    w,
  )

  unfoldable pub export_of : ℕ → ℕ → Query → Job → Handler
  export_of rounds id q job =
      if same (or_else q.type (codes "documents")) (codes "documents")
      then after_call
          (export_documents deps.collate rounds id (pagination q).limit (sort_of q) (order_of q)
            (pagination q).after (query_bool q.all))
          failed
          (exported
            (λ rows cursor. document_lines (responses job rows) cursor (sort_of q) (order_of q)))
      else if same (or_else q.type (codes "documents")) (codes "map")
      then after_call
          (export_mapped deps.collate rounds id (pagination q).limit (sort_of q) (order_of q)
            (pagination q).after (query_bool q.all))
          failed (exported (λ rows cursor. mapped_lines rows cursor (sort_of q) (order_of q)))
      else reply (bad_request (codes "invalid export type"))

  -- `GET /jobs/:id/export`
  unfoldable pub handle_export : ℕ → ℕ → Query → Handler
  handle_export rounds id q = after_call (get_job id) job_missing (export_of rounds id q)

  -- `registerRoutes`; `new_id` is the UUID that the database makes for a new job.
  unfoldable pub handle : ℕ → ℕ → ℕ → Request → Handler
  handle rounds now new_id (scrape body) = handle_scrape body
  handle rounds now new_id (batch_scrape body) = handle_batch now new_id body
  handle rounds now new_id (crawl body) = handle_crawl now new_id body
  handle rounds now new_id (map_site body) = handle_map now new_id body
  handle rounds now new_id (get_job_view id) = handle_job id
  handle rounds now new_id (get_documents id q) = handle_documents id q
  handle rounds now new_id (get_map id q) = handle_mapped id q
  handle rounds now new_id (get_export id q) = handle_export rounds id q
