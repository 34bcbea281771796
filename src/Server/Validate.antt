-- ===== src/Server/Validate.antt =====
-- internal/server/validate.go: what a request must satisfy.
pub mod Accepted
use bytefetch.Prelude.{
  Text, codes, is_empty, same, to_lower, Bool, true, false, not, ◌&&◌, ◌||◌, Option, none, some,
  List, [], ◌∷◌, if◌then◌else◌,
}
use bytefetch.Int.{ℤ, is_neg}
use bytefetch.Types.{format_values}
use bytefetch.Url.Net.{Url, UrlPackage}

-- The request types of internal/types/requests.go.
pub record ScrapeRequest : Type 0 where
  pub url : Text
  pub output_formats : List Text
  pub use_js : Bool

pub record BatchScrapeRequest : Type 0 where
  pub urls : List Text
  pub output_formats : List Text
  pub use_js : Bool

pub record CrawlRequest : Type 0 where
  pub url : Text
  pub max_depth : ℤ
  pub same_domain : Bool
  pub output_formats : List Text
  pub use_js : Bool
  pub include_sitemaps : Bool

pub record MapRequest : Type 0 where
  pub url : Text
  pub max_depth : ℤ
  pub same_domain : Bool
  pub include_sitemaps : Bool

-- `errBadURL`, `errBadFormat`, `errBadDepth` and `errNoURLs`.
pub data Invalid : Type 0 where
  bad_url bad_format bad_depth no_urls : Invalid

-- `validFormat`
unfoldable pub valid_format : Text → Bool
valid_format f =
    same (to_lower f) (codes "markdown")
    || same (to_lower f) (codes "html")
    || same (to_lower f) (codes "text")

-- The loop over the formats; `none` where there is no error.
unfoldable pub check_formats : List Text → Option Invalid
check_formats [] = none
check_formats (f ∷ fs) =
    let rest = check_formats fs in if valid_format f then rest else some bad_format

module _ (net : UrlPackage) where
  abbrev pub is_web_url : Option Url → Bool
  is_web_url none = false
  is_web_url (some u) =
      (same u.scheme (codes "http") || same u.scheme (codes "https")) && not (is_empty u.host)

  -- `validURL`
  unfoldable pub valid_url : Text → Bool
  valid_url raw = is_web_url (net.parse raw)

  unfoldable pub check_urls : List Text → List Text → Option Invalid
  check_urls formats [] = check_formats formats
  check_urls formats (u ∷ us) =
      let rest = check_urls formats us in if valid_url u then rest else some bad_url

  abbrev pub check_some_urls : List Text → List Text → Option Invalid
  check_some_urls formats [] = some no_urls
  check_some_urls formats (u ∷ us) = check_urls formats (u ∷ us)

  unfoldable pub validate_scrape_request : ScrapeRequest → Option Invalid
  validate_scrape_request req =
      if is_empty req.url || not (valid_url req.url)
      then some bad_url
      else check_formats (format_values req.output_formats (codes "markdown"))

  unfoldable pub validate_batch_request : BatchScrapeRequest → Option Invalid
  validate_batch_request req =
      check_some_urls (format_values req.output_formats (codes "markdown")) req.urls

  unfoldable pub validate_crawl_request : CrawlRequest → Option Invalid
  validate_crawl_request req =
      if is_empty req.url || not (valid_url req.url)
      then some bad_url
      else if is_neg req.max_depth
      then some bad_depth
      else check_formats (format_values req.output_formats (codes "markdown"))

  unfoldable pub validate_map_request : MapRequest → Option Invalid
  validate_map_request req =
      if is_empty req.url || not (valid_url req.url)
      then some bad_url
      else if is_neg req.max_depth
      then some bad_depth
      else none
