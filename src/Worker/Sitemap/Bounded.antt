-- ===== src/Worker/Sitemap/Bounded.antt =====
-- internal/worker/worker.go: how many URLs the walk over the sitemaps finds, and that it finds none
-- twice.
use bytefetch.Prelude.{
  ℕ, zero, suc, ◌+◌, ◌-◌, ◌≤◌, ◌≡◌, ◌≢◌, refl, sym, subst, Text, not-In_of_has, trim_space, false,
  List, [], ◌∷◌, ◌++◌, length, ◌==◌, Bool-cases, inl, inr, In, All, All-map, AllPairs, All-append,
  AllPairs-append, arith,
}
use bytefetch.Exec.{Result, ok, err}
use bytefetch.Config.{Config}
use bytefetch.Worker.Sitemap.{
  SitemapBody, url_set, index, other, Found, is_skipped, cons_found, append_found, take_urls,
  urls_or_none, visit, visit_all, read_body, read_fetched, fetch_sitemap_urls, or_if_zero,
  discover_sitemap_urls,
}

-- The walk keeps to its room, finds only what was not seen before, each once, and has seen it then.
pub record IsFine (room : ℕ) (seen : List Text) (found : Found) : Type 0 where
  pub fits : length found.0 ≤ room
  pub fresh : All (λ u. ¬ In u seen) found.0
  pub distinct : AllPairs ◌≢◌ found.0
  pub noted : All (λ u. In u found.1) found.0
  pub kept : (u : Text) → In u seen → In u found.1

nothing-IsFine : (room : ℕ) (seen : List Text) → IsFine room seen ([], seen)
nothing-IsFine room seen = record {
  fits = omega arith;
  fresh = tt;
  distinct = tt;
  noted = tt;
  kept = λ u m. m;
}

kept_fresh :
    (loc : Text) (seen out : List Text)
    → All (λ u. ¬ In u (loc ∷ seen)) out
    → All (λ u. ¬ In u seen) out × All (λ u. loc ≢ u) out
kept_fresh loc seen [] h = (tt, tt)
kept_fresh loc seen (u ∷ out) (new, h) =
    let (old, other_url) = kept_fresh loc seen out h in
    (((λ m. new (inr m)), old), ((λ e. new (inl (sym e))), other_url))

cons-IsFine :
    (room : ℕ) (seen : List Text) (loc : Text) (found : Found)
    → is_skipped seen loc ≡ false
    → IsFine room (loc ∷ seen) found
    → IsFine (suc room) seen (cons_found loc found)
cons-IsFine room seen loc (out, seen') new h =
    let (old, other_url) = kept_fresh loc seen out h.fresh in
    record {
      fits = (let le = h.fits in omega arith);
      fresh = (not-In_of_has seen loc (ground arith), old);
      distinct = (other_url, h.distinct);
      noted = (h.kept loc (inl refl), h.noted);
      kept = λ u m. h.kept u (inr m);
    }

take_urls-IsFine : (room : ℕ) (seen locs : List Text) → IsFine room seen (take_urls room seen locs)
unfolding take_urls
take_urls-IsFine zero seen locs = nothing-IsFine 0 seen
take_urls-IsFine (suc room) seen [] = nothing-IsFine (suc room) seen
take_urls-IsFine (suc room) seen (raw ∷ locs) =
    elim (Bool-cases (is_skipped seen (trim_space raw))) [
      | inl old ↦ rw old (take_urls-IsFine (suc room) seen locs)
      | inr new ↦ rw new (
          cons-IsFine room seen (trim_space raw) _ new
            (take_urls-IsFine room (trim_space raw ∷ seen) locs))
    ]

length-append : (xs ys : List Text) → length (xs ++ ys) ≡ length xs + length ys
length-append [] ys = omega arith
length-append (x ∷ xs) ys = let rest = length-append xs ys in omega arith

-- What comes later is not among what was noted before.
apart :
    (seen xs ys : List Text)
    → All (λ u. In u seen) xs
    → All (λ u. ¬ In u seen) ys
    → All (λ u. All (λ v. u ≢ v) ys) xs
apart seen [] ys h k = tt
apart seen (x ∷ xs) ys (m, h) k =
    (All-map (λ v new e. new (subst (λ u. In u seen) e m)) ys k, apart seen xs ys h k)

append-IsFine :
    (room : ℕ) (seen urls seen' : List Text) (found : Found)
    → IsFine room seen (urls, seen')
    → IsFine (room - length urls) seen' found
    → IsFine room seen (append_found urls found)
append-IsFine room seen urls seen' (out, last) h k = record {
  fits = (let le = h.fits in let le' = k.fits in omega (arith, length-append urls out));
  fresh = All-append _ urls out h.fresh (All-map (λ u new m. new (h.kept u m)) out k.fresh);
  distinct =
      AllPairs-append _ urls out h.distinct k.distinct (apart seen' urls out h.noted k.fresh);
  noted = All-append _ urls out (All-map (λ u m. k.kept u m) urls h.noted) k.noted;
  kept = λ u m. k.kept u (h.kept u m);
}

forget-IsFine :
    (room : ℕ) (seen : List Text) (loc : Text) (found : Found)
    → IsFine room (loc ∷ seen) found
    → IsFine room seen found
forget-IsFine room seen loc found h = record {
  fits = h.fits;
  fresh = (kept_fresh loc seen found.0 h.fresh).0;
  distinct = h.distinct;
  noted = h.noted;
  kept = λ u m. h.kept u (inr m);
}

abbrev found_by : Result (List Text) × List Text → Found
found_by (r, seen) = (urls_or_none r, seen)

module _ (walk : ℕ → List Text → Text → Result (List Text) × List Text)
    (walk-IsFine : (room : ℕ) (seen : List Text) (loc : Text)
      → IsFine room seen (found_by (walk room seen loc))) where
  visit-IsFine : (room : ℕ) (seen locs : List Text) → IsFine room seen (visit walk room seen locs)
  unfolding visit
  visit-IsFine room seen [] = nothing-IsFine room seen
  visit-IsFine room seen (raw ∷ locs) = elim (Bool-cases (room == 0)) [
    | inl full ↦ rw full (nothing-IsFine room seen)
    | inr open_room ↦ elim (Bool-cases (is_skipped seen (trim_space raw))) [
      | inl old ↦ rw (open_room, old) (visit-IsFine room seen locs)
      | inr new ↦
          rw (open_room, new)
            (append-IsFine room seen _ _ _
              (forget-IsFine room seen (trim_space raw) _
                (walk-IsFine room (trim_space raw ∷ seen) (trim_space raw)))
              (visit-IsFine
                (room
                  - length (urls_or_none (walk room (trim_space raw ∷ seen) (trim_space raw)).0))
                (walk room (trim_space raw ∷ seen) (trim_space raw)).1 locs))
    ]
  ]

  visit_all-IsFine :
      (room : ℕ) (seen sitemaps : List Text)
      → (last : List Text) × IsFine room seen (visit_all walk room seen sitemaps, last)
  unfolding visit_all
  visit_all-IsFine room seen [] = (seen, nothing-IsFine room seen)
  visit_all-IsFine room seen (sitemap ∷ sitemaps) = elim (Bool-cases (room == 0)) [
    | inl full ↦ rw full (seen, nothing-IsFine room seen)
    | inr open_room ↦
        let (last, rest) =
          visit_all-IsFine (room - length (urls_or_none (walk room seen sitemap).0))
            (walk room seen sitemap).1 sitemaps in
        rw open_room (last, append-IsFine room seen _ _ _ (walk-IsFine room seen sitemap) rest)
  ]

module _ (fetch : Text → Result Text) (unmarshal : Text → SitemapBody) where
  body-IsFine :
      (levels room : ℕ) (seen : List Text) (body : SitemapBody)
      → ((r : ℕ) (s : List Text) (l : Text)
          → IsFine r s (found_by (fetch_sitemap_urls fetch unmarshal levels r s l)))
      → IsFine room seen (
          found_by
            (read_body fetch unmarshal (fetch_sitemap_urls fetch unmarshal levels) room seen body))
  body-IsFine levels room seen (url_set locs) h = take_urls-IsFine room seen locs
  body-IsFine levels room seen (index locs) h = visit-IsFine _ h room seen locs
  body-IsFine levels room seen other h = nothing-IsFine room seen

  fetched-IsFine :
      (levels room : ℕ) (seen : List Text) (r : Result Text)
      → ((r : ℕ) (s : List Text) (l : Text)
          → IsFine r s (found_by (fetch_sitemap_urls fetch unmarshal levels r s l)))
      → IsFine room seen (
          found_by
            (read_fetched fetch unmarshal (fetch_sitemap_urls fetch unmarshal levels) room seen r))
  fetched-IsFine levels room seen (ok body) h = body-IsFine levels room seen (unmarshal body) h
  fetched-IsFine levels room seen (err e) h = nothing-IsFine room seen

  fetch_sitemap_urls-IsFine :
      (levels room : ℕ) (seen : List Text) (url : Text)
      → IsFine room seen (found_by (fetch_sitemap_urls fetch unmarshal levels room seen url))
  unfolding fetch_sitemap_urls
  fetch_sitemap_urls-IsFine zero room seen url = nothing-IsFine room seen
  fetch_sitemap_urls-IsFine (suc levels) room seen url = elim (Bool-cases (room == 0)) [
    | inl full ↦ rw full (nothing-IsFine room seen)
    | inr open_room ↦
        rw open_room
          (fetched-IsFine levels room seen (fetch url) (fetch_sitemap_urls-IsFine levels))
  ]

  -- Whatever the sitemaps of a site hold, and however they point at each other, the walk finds at most
  -- as many URLs as the limit allows (1000 where none is set), and none of them twice.
  pub discover_sitemap_urls_bounded :
      (cfg : Config) (sitemaps : List Text)
      → (length (discover_sitemap_urls fetch unmarshal cfg sitemaps)
          ≤ or_if_zero fetch unmarshal cfg.crawl.sitemap_url_limit 1000)
        × AllPairs ◌≢◌ (discover_sitemap_urls fetch unmarshal cfg sitemaps)
  unfolding discover_sitemap_urls
  discover_sitemap_urls_bounded cfg sitemaps =
      let (last, h) =
        visit_all-IsFine _
          (fetch_sitemap_urls-IsFine (or_if_zero fetch unmarshal cfg.crawl.sitemap_max_nested 1))
          (or_if_zero fetch unmarshal cfg.crawl.sitemap_url_limit 1000) [] sitemaps in
      (h.fits, h.distinct)
