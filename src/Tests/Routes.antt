-- ===== src/Tests/Routes.antt =====
-- Requests to the API of internal/server, from a small database.
use bytefetch.Prelude.{
  ◌<◌, ◌≤◌, ◌≡◌, ◌≢◌, ◌↔◌, refl, Text, codes, same, to_lower, lower_byte, has, trim_space,
  trim_left, is_space, true, false, none, some, [], ◌∷◌, ◌++◌, map, find, take, drop, ◌==◌, All,
  AllPairs, In, arith, ◌^◌,
}
use bytefetch.Int.{pos}
use bytefetch.Json.{str, arr, nil, cons, lookup}
use bytefetch.Exec.{ok, pure, ◌>>=◌}
use bytefetch.Store.Rows.{Job, JobType, DocumentRow}
use bytefetch.Store.Db.{Db, has_job, empty_db}
use bytefetch.Store.Invariant.{IsValid}
use bytefetch.Store.Finish.{quiet}
use bytefetch.Store.Listing.{
  Direction, Column, document_keys, order_dir, order_column, document_order_column,
}
use bytefetch.Store.Listing.Order.{rows_after}
use bytefetch.Types.{format_values, formats_from_any, normalize_formats, normalize_from, elems_of}
use bytefetch.Worker.Pages.{
  Extracted, Answer, Outputs, requested_formats, make_outputs, or_markdown, document_meta, lift,
  has_output,
}
use bytefetch.Worker.Pages.Stored.{IsSmall}
use bytefetch.Server.Http.{respond, documents, not_found}
use bytefetch.Server.Outputs.{
  DocumentOutput, Contents, ordered_outputs, formats_from_job, document_from_row,
}
use bytefetch.Server.Outputs.Ordered.{ordered_outputs_lem}
use bytefetch.Server.Outputs.RoundTrip.{outputs_round_trip}
use bytefetch.Server.Paging.{last_id}
use bytefetch.Server.Query.{parse_pagination, next_cursor_header}
use bytefetch.Server.Query.Cursor.{parse_pagination_lem}
use bytefetch.Server.Request.{Query, pagination, sort_of, order_of}
use bytefetch.Server.Routes.{
  HandlerDeps, crawl, handle, handle_crawl, handle_map, handle_documents, responses,
}
use bytefetch.Server.Routes.Atomic.{IsSafe, handle-IsSafe}
use bytefetch.Server.Routes.Created.{Answered, crawl_and_map-Answered}
use bytefetch.Server.Routes.Listed.{documents_listed}
use bytefetch.Server.Validate.{
  BatchScrapeRequest, CrawlRequest, MapRequest, validate_crawl_request, validate_map_request,
}
use bytefetch.System.{request, swept, after, begin, step}
use bytefetch.System.Reachable.{Reach-IsValid}
use bytefetch.Tests.Data.{sample, sample-IsValid, config, hosts_only, job_2}

abbrev page : Extracted
page = record {
  title = codes "T";
  html = codes "<p>";
  meta = (codes "url", codes "u") ∷ [];
  links = [];
}

abbrev deps : HandlerDeps
deps = record {
  config = config;
  net = hosts_only;
  collate = λ s t. false;
  format_time = λ t. codes "then";
  fetch = λ url js. ok (record { body = codes "b"; final_url = url });
  extract = λ url body. ok page;
  format_content = λ ext format. ok (format ++ codes "!");
}

abbrev batch : BatchScrapeRequest
batch = record {
  urls = codes "a" ∷ [];
  output_formats = codes " HTML" ∷ codes "html" ∷ [];
  use_js = true;
}

abbrev deep_crawl : CrawlRequest
deep_crawl = record {
  url = codes "c";
  max_depth = pos 2;
  same_domain = true;
  output_formats = codes "Text" ∷ [];
  use_js = false;
  include_sitemaps = true;
}

abbrev site : MapRequest
site = record { url = codes "d"; max_depth = pos 1; same_domain = false; include_sitemaps = false }

-- The database after a request for a crawl and a sweep.
abbrev left_behind : Db
left_behind =
    after deps (swept 70)
      (quiet (after deps (request 3 60 1 (crawl (some deep_crawl))) (quiet empty_db)))

Reach-IsValid_example : IsValid left_behind × IsSmall config left_behind
Reach-IsValid_example =
    Reach-IsValid deps left_behind
      (step (step begin (request 3 60 1 (crawl (some deep_crawl))) []) (swept 70) [])

handle-IsSafe_example :
    IsSafe (quiet sample) (handle deps 5 60 7 (crawl (some deep_crawl)) (quiet sample))
handle-IsSafe_example = handle-IsSafe deps 5 60 7 (crawl (some deep_crawl)) (quiet sample)

new_id : has_job 7 sample ≡ false
unfolding has_job
new_id = refl

crawl_and_map-Answered_example :
    Answered deps
      (validate_crawl_request hosts_only deep_crawl)
      (codes "c")
      7
      sample
      (handle_crawl deps 60 7 (some deep_crawl))
    × Answered deps
        (validate_map_request hosts_only site)
        (codes "d")
        7
        sample
        (handle_map deps 60 7 (some site))
crawl_and_map-Answered_example = crawl_and_map-Answered deps 60 7 sample deep_crawl site new_id

abbrev first_page : Query
first_page = record {
  limit = codes "1";
  offset = [];
  after = [];
  sort = [];
  sort_by = [];
  type = [];
  all = [];
}

by_default :
    (order_dir (sort_of first_page) ≡ Direction.asc)
    × (document_order_column (order_of first_page) ≡ Column.id)
unfolding order_dir document_order_column order_column same to_lower
by_default = (refl, refl)

documents_listed_example :
    let left = rows_after document_keys 2 sample.documents in
    let shown = take (pagination first_page).limit (left (pagination first_page).after) in
    let next = last_id document_keys 0 shown in
    (find (λ j. j.id == 2) sample.jobs ≡ none
      → handle_documents deps 2 first_page (quiet sample)
        ≡ (some (not_found (codes "job not found")), quiet sample))
    × ((job : Job)
        → find (λ j. j.id == 2) sample.jobs ≡ some job
        → (handle_documents deps 2 first_page (quiet sample)
            ≡ (some (respond 200 (documents (responses deps job shown) next)), quiet sample))
          × (shown ≢ []
              → left next
                ≡ drop (pagination first_page).limit (left (pagination first_page).after)))
documents_listed_example =
    documents_listed deps 2 first_page sample by_default.0 by_default.1 sample-IsValid

parse_pagination_lem_example :
    let q = parse_pagination (codes "501") (codes "-1") (codes "9x") in
    (0 < q.limit)
    × (q.limit ≤ 500)
    × (q.offset < 2 ^ 63)
    × (q.after < 2 ^ 63)
    × ((header : Text)
        → next_cursor_header 1204 ≡ some header
        → (parse_pagination (codes "501") (codes "-1") header).after ≡ 1204)
parse_pagination_lem_example =
    parse_pagination_lem (codes "501") (codes "-1") (codes "9x") 1204 (omega arith)

abbrev contents : Contents
contents = (codes "text", codes "t") ∷ (codes "html", codes "h") ∷ []

lower_keys : All (λ e. to_lower e.0 ≡ e.0) contents
unfolding to_lower lower_byte
lower_keys = (refl, (refl, tt))

ordered_outputs_lem_example :
    AllPairs (λ o p. o.format ≢ p.format) (ordered_outputs contents (codes "HTML" ∷ []))
    × ((o : DocumentOutput)
        → In o (ordered_outputs contents (codes "HTML" ∷ []))
          ↔ (lookup o.format contents ≡ some o.content))
ordered_outputs_lem_example = ordered_outputs_lem contents (codes "HTML" ∷ []) lower_keys

-- A page stored as text and as HTML, and the row of its document.
abbrev two_formats : Job
two_formats = record job_2 {
  params =
      (codes "output_format", arr (cons (str (codes "HTML")) (cons (str (codes "text")) nil))) ∷ [];
}

abbrev printing : Answer
printing = record {
  allowed = λ url. true;
  wait = λ url. ok tt;
  fetch = λ url js. ok (record { body = []; final_url = url });
  extract = λ url body. ok page;
  format_content = λ ext format. ok (format ++ codes "!");
  sitemap_urls = λ url. [];
}

abbrev stored : Outputs
stored = (codes "text", codes "text!") ∷ (codes "html", codes "html!") ∷ []

abbrev stored_row : DocumentRow
stored_row = record {
  id = 1;
  document = record {
    job_id = 2;
    requested_url = codes "b";
    final_url = codes "b";
    title = codes "T";
    content_md = codes "html!";
    content_raw = codes "html!";
    meta = document_meta JobType.crawl two_formats.params page stored;
  };
  created_at = 1;
}

made_both :
    (make_outputs printing page (requested_formats two_formats.params) [] []
        >>= or_markdown printing page)
      (quiet sample)
    ≡ (ok (stored, codes "html!"), quiet sample)
unfolding ◌>>=◌ make_outputs or_markdown requested_formats formats_from_any format_values
    normalize_formats normalize_from elems_of lookup same to_lower lower_byte trim_space trim_left
    is_space has lift pure has_output
made_both = refl

outputs_round_trip_example :
    let shown =
      document_from_row deps.format_time stored_row two_formats (formats_from_job two_formats) in
    (map (λ o. o.format) shown.outputs ≡ formats_from_job two_formats)
    × All (λ o. printing.format_content page o.format ≡ ok o.content) shown.outputs
    × (lookup (codes "outputs") shown.meta ≡ none)
outputs_round_trip_example =
    outputs_round_trip deps.format_time printing page JobType.crawl two_formats stored_row stored
      (codes "html!") (quiet sample) (quiet sample) made_both refl
