-- ===== src/Server/Request.antt =====
-- internal/server/routes.go and internal/types/requests.go: the parameters of a job, as the request
-- that makes it gives them, and the query of a listing.
use bytefetch.Prelude.{Text, codes, is_empty, has, Bool, List, [], ◌∷◌, if◌then◌else◌}
use bytefetch.Json.{bool, num, str, arr, Elems, nil, cons, Object}
use bytefetch.Server.Query.{Pagination, parse_pagination}
use bytefetch.Server.Validate.{BatchScrapeRequest, CrawlRequest, MapRequest}

abbrev pub texts : List Text → Elems
texts [] = nil
texts (t ∷ ts) = cons (str t) (texts ts)

-- `json.Marshal` of a request. A list of formats that is nil is `null`, which reads as the empty
-- list does.
unfoldable pub batch_params : BatchScrapeRequest → Object
batch_params req =
    (codes "urls", arr (texts req.urls))
    ∷ (codes "output_format", arr (texts req.output_formats))
    ∷ (codes "use_js", bool req.use_js)
    ∷ []

unfoldable pub crawl_params : CrawlRequest → Object
crawl_params req =
    (codes "url", str req.url)
    ∷ (codes "max_depth", num req.max_depth)
    ∷ (codes "same_domain", bool req.same_domain)
    ∷ (codes "output_format", arr (texts req.output_formats))
    ∷ (codes "use_js", bool req.use_js)
    ∷ (codes "include_sitemaps", bool req.include_sitemaps)
    ∷ []

unfoldable pub map_params : MapRequest → Object
map_params req =
    (codes "url", str req.url)
    ∷ (codes "max_depth", num req.max_depth)
    ∷ (codes "same_domain", bool req.same_domain)
    ∷ (codes "include_sitemaps", bool req.include_sitemaps)
    ∷ []

-- The query of a listing or an export.
pub record Query : Type 0 where
  pub limit : Text
  pub offset : Text
  pub after : Text
  pub sort : Text
  pub sort_by : Text
  pub type : Text
  pub all : Text

-- `c.Query(key, default)`
abbrev pub or_else : Text → Text → Text
or_else value default = if is_empty value then default else value

-- `c.QueryBool(key, false)`
unfoldable pub query_bool : Text → Bool
query_bool v =
    has (codes "1" ∷ codes "t" ∷ codes "T" ∷ codes "TRUE" ∷ codes "true" ∷ codes "True" ∷ []) v

abbrev pub pagination : Query → Pagination
pagination q = parse_pagination q.limit q.offset q.after

abbrev pub sort_of : Query → Text
sort_of q = or_else q.sort (codes "asc")

abbrev pub order_of : Query → Text
order_of q = or_else q.sort_by (codes "id")
