-- ===== src/Tests/Requests.antt =====
-- Requests that internal/server/validate.go accepts, and a walk over sitemaps.
use bytefetch.Prelude.{
  ℕ, ◌≤◌, ◌≡◌, ◌≢◌, ◌↔◌, refl, Text, codes, is_empty, same, to_lower, lower_byte, true, false, none,
  [], ◌∷◌, length, All, AllPairs, ◌==◌, if◌then◌else◌,
}
use bytefetch.Int.{pos}
use bytefetch.Exec.{Result, ok, err, unsupported_format}
use bytefetch.Worker.Pages.{Extracted}
use bytefetch.Worker.Sitemap.{SitemapBody, url_set, index, or_if_zero, discover_sitemap_urls}
use bytefetch.Worker.Sitemap.Bounded.{discover_sitemap_urls_bounded}
use bytefetch.Format.{MarkdownPackages, format_content}
use bytefetch.Server.Validate.{
  ScrapeRequest, BatchScrapeRequest, CrawlRequest, MapRequest, valid_format,
  validate_scrape_request, validate_batch_request, validate_crawl_request, validate_map_request,
}
use bytefetch.Server.Validate.Accepted.{IsTarget, AllFormats, validate_iff, valid_format_served}
use bytefetch.Tests.Data.{config, hosts_only}

abbrev scrape_request : ScrapeRequest
scrape_request = record { url = codes "h"; output_formats = codes "HTML" ∷ []; use_js = false }

abbrev batch_request : BatchScrapeRequest
batch_request = record { urls = codes "h" ∷ []; output_formats = []; use_js = false }

abbrev crawl_request : CrawlRequest
crawl_request = record {
  url = codes "h";
  max_depth = pos 2;
  same_domain = true;
  output_formats = codes "pdf" ∷ [];
  use_js = false;
  include_sitemaps = false;
}

abbrev map_request : MapRequest
map_request = record { url = []; max_depth = pos 2; same_domain = true; include_sitemaps = false }

validate_iff_example :
    ((validate_scrape_request hosts_only scrape_request ≡ none) ↔ (
      (scrape_request.url ≢ [])
      × IsTarget hosts_only scrape_request.url
      × AllFormats scrape_request.output_formats))
    × ((validate_batch_request hosts_only batch_request ≡ none) ↔ (
        (batch_request.urls ≢ [])
        × All (IsTarget hosts_only) batch_request.urls
        × AllFormats batch_request.output_formats))
    × ((validate_crawl_request hosts_only crawl_request ≡ none) ↔ (
        (crawl_request.url ≢ [])
        × IsTarget hosts_only crawl_request.url
        × ((depth : ℕ) × (crawl_request.max_depth ≡ pos depth))
        × AllFormats crawl_request.output_formats))
    × ((validate_map_request hosts_only map_request ≡ none) ↔ (
        (map_request.url ≢ [])
        × IsTarget hosts_only map_request.url
        × ((depth : ℕ) × (map_request.max_depth ≡ pos depth))))
validate_iff_example =
    validate_iff hosts_only scrape_request batch_request crawl_request map_request

abbrev copying : MarkdownPackages
copying = record { convert = λ html. ok html; strip = λ text. text }

abbrev a_page : Extracted
a_page = record { title = codes "T"; html = codes "<p>"; meta = []; links = [] }

html_known : valid_format (codes "HTML") ≡ true
unfolding valid_format same to_lower lower_byte
html_known = refl

valid_format_served_example :
    format_content copying a_page (codes "HTML") ≢ err (unsupported_format (codes "HTML"))
valid_format_served_example =
    valid_format_served copying a_page (codes "HTML") (codes "HTML") (λ h k e. cc e) html_known

-- An index that points at itself and at a set of URLs.
abbrev bodies : Text → SitemapBody
bodies body =
    if is_empty body
    then index (codes "a" ∷ codes "b" ∷ [])
    else url_set (codes "c" ∷ codes "c" ∷ [])

abbrev site : Text → Result Text
site url = ok (if length url == 1 then url else [])

discover_sitemap_urls_bounded_example :
    (length (discover_sitemap_urls site bodies config (codes "map" ∷ []))
      ≤ or_if_zero site bodies config.crawl.sitemap_url_limit 1000)
    × AllPairs ◌≢◌ (discover_sitemap_urls site bodies config (codes "map" ∷ []))
discover_sitemap_urls_bounded_example =
    discover_sitemap_urls_bounded site bodies config (codes "map" ∷ [])
