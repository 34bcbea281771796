-- ===== src/Worker/Sitemap.antt =====
-- internal/worker/worker.go: the walk over the sitemaps of a site.
pub mod Bounded
use bytefetch.Prelude.{
  ℕ, zero, suc, ◌-◌, Text, is_empty, has, trim_space, Bool, true, false, ◌||◌, Option, List, [],
  ◌∷◌, ◌++◌, length, ltb, ◌==◌, if◌then◌else◌,
}
use bytefetch.Exec.{Result, ok, err}
use bytefetch.Config.{Config}

-- What `xml.Unmarshal` finds in a body: the locations of a URL set or of an index that is not empty,
-- or neither of them.
pub data SitemapBody : Type 0 where
  url_set : List Text → SitemapBody
  index : List Text → SitemapBody
  other : SitemapBody

-- The locations that a walk has found and, since the map `seen` is shared, what it has added to that.
abbrev pub Found : Type 0
Found = List Text × List Text

abbrev pub is_skipped : List Text → Text → Bool
is_skipped seen loc = is_empty loc || has seen loc

abbrev pub cons_found : Text → Found → Found
cons_found loc (out, seen) = (loc ∷ out, seen)

abbrev pub append_found : List Text → Found → Found
append_found urls (out, seen) = (urls ++ out, seen)

-- The loop over a URL set, with room for so many.
unfoldable pub take_urls : ℕ → List Text → List Text → Found
take_urls zero seen locs = ([], seen)
take_urls (suc room) seen [] = ([], seen)
take_urls (suc room) seen (raw ∷ locs) =
    let loc = trim_space raw in
    let skip = take_urls (suc room) seen locs in
    let keep = take_urls room (loc ∷ seen) locs in
    if is_skipped seen loc then skip else cons_found loc keep

abbrev pub urls_or_none : Result (List Text) → List Text
urls_or_none (ok urls) = urls
urls_or_none (err e) = []

-- The loop over an index; `walk` is the call for one of its sitemaps. An error goes on to the next.
module _ (walk : ℕ → List Text → Text → Result (List Text) × List Text) where
  unfoldable pub visit : ℕ → List Text → List Text → Found
  visit room seen [] = ([], seen)
  visit room seen (raw ∷ locs) =
      let loc = trim_space raw in
      let skip = visit room seen locs in
      let (r, seen') = walk room (loc ∷ seen) loc in
      let rest = visit (room - length (urls_or_none r)) seen' locs in
      if room == 0
      then ([], seen)
      else if is_skipped seen loc
      then skip
      else append_found (urls_or_none r) rest

  -- The loop of `discoverSitemapLinks`.
  unfoldable pub visit_all : ℕ → List Text → List Text → List Text
  visit_all room seen [] = []
  visit_all room seen (sitemap ∷ sitemaps) =
      let (r, seen') = walk room seen sitemap in
      let rest = visit_all (room - length (urls_or_none r)) seen' sitemaps in
      if room == 0 then [] else urls_or_none r ++ rest

abbrev pub as_result : Found → Result (List Text) × List Text
as_result (out, seen) = (ok out, seen)

module _ (fetch : Text → Result Text) (unmarshal : Text → SitemapBody) where
  abbrev pub read_body :
      (ℕ → List Text → Text → Result (List Text) × List Text)
      → ℕ
      → List Text
      → SitemapBody
      → Result (List Text) × List Text
  read_body walk remaining seen (url_set locs) = as_result (take_urls remaining seen locs)
  read_body walk remaining seen (index locs) = as_result (visit walk remaining seen locs)
  read_body walk remaining seen other = (ok [], seen)

  abbrev pub read_fetched :
      (ℕ → List Text → Text → Result (List Text) × List Text)
      → ℕ
      → List Text
      → Result Text
      → Result (List Text) × List Text
  read_fetched walk remaining seen (ok body) = read_body walk remaining seen (unmarshal body)
  read_fetched walk remaining seen (err e) = (err e, seen)

  -- `fetchSitemapURLs`; `levels` is how far `depth` is below `maxDepth`, and 0 where it is past it.
  unfoldable pub fetch_sitemap_urls : ℕ → ℕ → List Text → Text → Result (List Text) × List Text
  fetch_sitemap_urls zero remaining seen url = (ok [], seen)
  fetch_sitemap_urls (suc levels) remaining seen url =
      let found = read_fetched (fetch_sitemap_urls levels) remaining seen (fetch url) in
      if remaining == 0 then (ok [], seen) else found

  abbrev pub or_if_zero : ℕ → ℕ → ℕ
  or_if_zero n default_value = if n == 0 then default_value else n

  -- `discoverSitemapLinks` up to its filter, `sitemaps` being those that robots.txt names.
  unfoldable pub discover_sitemap_urls : Config → List Text → List Text
  discover_sitemap_urls cfg sitemaps =
      visit_all (fetch_sitemap_urls (or_if_zero cfg.crawl.sitemap_max_nested 1))
        (or_if_zero cfg.crawl.sitemap_url_limit 1000) [] sitemaps
