-- ===== src/Server/Validate/Accepted.antt =====
-- internal/server/validate.go and internal/format/format.go: an accepted request can be served.
use bytefetch.Prelude.{
  ℕ, ◌≡◌, ◌≢◌, refl, sym, ◌∙◌, ◌↔◌, ◌⊎◌, inl, inr, Text, codes, is_empty_iff, same, same_iff,
  to_lower, true, false, none, some, Option-cases, List, [], ◌∷◌, if_true, if_false, Bool-cases,
  All, arith,
}
use bytefetch.Int.{ℤ, pos, negsuc, is_neg}
use bytefetch.Exec.{Result, ok, err, Error, unsupported_format}
use bytefetch.Types.{format_values}
use bytefetch.Url.Net.{Url, UrlPackage}
use bytefetch.Worker.Pages.{Extracted}
use bytefetch.Format.{MarkdownPackages, format_content, markdown_from_extract, titled, stripped}
use bytefetch.Server.Validate.{
  ScrapeRequest, BatchScrapeRequest, CrawlRequest, MapRequest, valid_format, check_formats,
  is_web_url, valid_url, check_urls, check_some_urls, validate_scrape_request,
  validate_batch_request, validate_crawl_request, validate_map_request,
}

-- One of the three formats, in any case of letters.
abbrev pub IsFormat : Text → Type 0
IsFormat f =
    (to_lower f ≡ codes "markdown") ⊎ ((to_lower f ≡ codes "html") ⊎ (to_lower f ≡ codes "text"))

abbrev pub AllFormats : List Text → Type 0
AllFormats formats = All IsFormat (format_values formats (codes "markdown"))

valid_format_iff : (f : Text) → (valid_format f ≡ true) ↔ IsFormat f
unfolding valid_format
valid_format_iff f = ground (
  arith,
  same_iff (to_lower f) (codes "markdown"),
  same_iff (to_lower f) (codes "html"),
  same_iff (to_lower f) (codes "text"),
)

check_formats_iff : (fs : List Text) → (check_formats fs ≡ none) ↔ All IsFormat fs
unfolding check_formats
check_formats_iff [] = ((λ _. tt), (λ _. refl))
check_formats_iff (f ∷ fs) = ground (arith, valid_format_iff f, check_formats_iff fs)

is_neg_iff : (x : ℤ) → (is_neg x ≡ false) ↔ ((n : ℕ) × (x ≡ pos n))
is_neg_iff (pos n) = ((λ h. (n, refl)), (λ h. refl))
is_neg_iff (negsuc n) = ((λ h. absurd (cc h)), (λ (k, e). absurd (cc e)))

module _ (net : UrlPackage) where
  -- The address parses, as one of the web with a host.
  abbrev pub IsTarget : Text → Type 0
  IsTarget url =
      (u : Url) × (net.parse url ≡ some u)
      × ((u.scheme ≡ codes "http") ⊎ (u.scheme ≡ codes "https"))
      × (u.host ≢ [])

  is_web_url_iff :
      (u : Url)
      → (is_web_url net (some u) ≡ true)
        ↔ (((u.scheme ≡ codes "http") ⊎ (u.scheme ≡ codes "https")) × (u.host ≢ []))
  is_web_url_iff u = ground (
    arith,
    same_iff u.scheme (codes "http"),
    same_iff u.scheme (codes "https"),
    is_empty_iff u.host,
  )

  valid_url_iff : (url : Text) → (valid_url net url ≡ true) ↔ IsTarget url
  unfolding valid_url
  valid_url_iff url = (
    (λ h. elim (Option-cases (net.parse url)) [
      | inl bad ↦ absurd (cc (rw bad at h))
      | inr (u, parsed) ↦
          let (kind, host) = (is_web_url_iff u).0 (rw parsed at h) in (u, parsed, kind, host)
    ]),
    (λ (u, parsed, kind, host). rw parsed ((is_web_url_iff u).1 (kind, host))),
  )

  check_urls_iff :
      (fs us : List Text) → (check_urls net fs us ≡ none) ↔ (All IsTarget us × All IsFormat fs)
  unfolding check_urls
  check_urls_iff fs [] =
      ((λ h. (tt, (check_formats_iff fs).0 h)), (λ h. (check_formats_iff fs).1 h.1))
  check_urls_iff fs (u ∷ us) = ground (arith, valid_url_iff u, check_urls_iff fs us)

  check_some_urls_iff :
      (fs us : List Text)
      → (check_some_urls net fs us ≡ none) ↔ ((us ≢ []) × All IsTarget us × All IsFormat fs)
  check_some_urls_iff fs [] = ((λ h. absurd (cc h)), (λ h. absurd (h.0 refl)))
  check_some_urls_iff fs (u ∷ us) =
      let both = check_urls_iff fs (u ∷ us) in
      (
        (λ h. ((λ e. cc e), (both.0 h).0, (both.0 h).1)),
        (λ (ne, urls, formats). both.1 (urls, formats)),
      )

  -- A request is accepted exactly when each of its addresses parses as one of the web, with a host, its
  -- depth is not negative, each of its formats is `markdown`, `html` or `text` in any case of letters,
  -- and a batch has at least one address.
  pub validate_iff :
      (scrape : ScrapeRequest) (batch : BatchScrapeRequest) (crawl : CrawlRequest)
      (map : MapRequest)
      → ((validate_scrape_request net scrape ≡ none)
          ↔ ((scrape.url ≢ []) × IsTarget scrape.url × AllFormats scrape.output_formats))
        × ((validate_batch_request net batch ≡ none)
            ↔ ((batch.urls ≢ []) × All IsTarget batch.urls × AllFormats batch.output_formats))
        × ((validate_crawl_request net crawl ≡ none) ↔ (
            (crawl.url ≢ [])
            × IsTarget crawl.url
            × ((depth : ℕ) × (crawl.max_depth ≡ pos depth))
            × AllFormats crawl.output_formats))
        × ((validate_map_request net map ≡ none)
            ↔ ((map.url ≢ []) × IsTarget map.url × ((depth : ℕ) × (map.max_depth ≡ pos depth))))
  unfolding validate_scrape_request validate_batch_request validate_crawl_request
      validate_map_request
  validate_iff scrape batch crawl map = (
    ground (
      arith,
      is_empty_iff scrape.url,
      valid_url_iff scrape.url,
      check_formats_iff (format_values scrape.output_formats (codes "markdown")),
    ),
    check_some_urls_iff (format_values batch.output_formats (codes "markdown")) batch.urls,
    ground (
      arith,
      is_empty_iff crawl.url,
      valid_url_iff crawl.url,
      is_neg_iff crawl.max_depth,
      check_formats_iff (format_values crawl.output_formats (codes "markdown")),
    ),
    ground (arith, is_empty_iff map.url, valid_url_iff map.url, is_neg_iff map.max_depth),
  )

module _ (packages : MarkdownPackages) (ext : Extracted) where
  titled-err : (r : Result Text) (e : Error) → titled packages ext r ≡ err e → r ≡ err e
  titled-err (ok text) e h = absurd (cc h)
  titled-err (err d) e h = h

  stripped-err : (r : Result Text) (e : Error) → stripped packages ext r ≡ err e → r ≡ err e
  stripped-err (ok text) e h = absurd (cc h)
  stripped-err (err d) e h = h

-- A format that validation lets through is one that `FormatContent` knows, if the converter to Markdown
-- does not fail with the error for unknown formats of its own accord.
pub valid_format_served :
    (packages : MarkdownPackages) (ext : Extracted) (f g : Text)
    → ((h k : Text) → packages.convert h ≢ err (unsupported_format k))
    → valid_format f ≡ true
    → format_content packages ext f ≢ err (unsupported_format g)
unfolding valid_format format_content markdown_from_extract
valid_format_served packages ext f g converter known served =
    elim (Bool-cases (same (to_lower f) (codes "markdown"))) [
      | inl markdown ↦
          converter ext.html g (titled-err packages ext _ _ (sym (if_true _ _ _ markdown) ∙ served))
      | inr other ↦ elim (Bool-cases (same (to_lower f) (codes "html"))) [
        | inl html ↦ ground arith
        | inr third ↦
            let text : same (to_lower f) (codes "text") ≡ true = ground arith in
            let branch =
              sym (if_false _ _ _ other ∙ if_false _ _ _ third ∙ if_true _ _ _ text) ∙ served in
            converter ext.html g
              (titled-err packages ext _ _ (stripped-err packages ext _ _ branch))
      ]
    ]
