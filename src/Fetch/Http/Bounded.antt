-- ===== src/Fetch/Http/Bounded.antt =====
-- internal/fetch/fetcher.go: a fetch ends, and what it can cost.
use bytefetch.Prelude.{
  ℕ, zero, suc, ◌+◌, ◌<◌, ◌≤◌, ◌≡◌, refl, ap, ◌∙◌, subst, Text, false, Option, none, some, length,
  take, length-take, leb, max, Bool-cases, inl, inr, arith,
}
use bytefetch.Exec.{Error, Result, ok, err}
use bytefetch.Worker.Pages.{Page}
use bytefetch.Fetch.Http.{
  HttpResponse, Fetcher, on_redirect, on_response, read_all, found_page, stops, do_request,
  read_limited, page_at, page_of, fetch_http, fetch_with, fetch,
}

-- The requests that were made are within a bound.
abbrev Ends : ℕ → Option (ℕ × Result HttpResponse) → Type 0
Ends bound o = (found : ℕ × Result HttpResponse) × (o ≡ some found) × (found.0 ≤ bound)

module _ (f : Fetcher) (via : ℕ) (follow : Text → Option (ℕ × Result HttpResponse)) (bound : ℕ)
    (within : via ≤ bound)
    (followed : (to : Text) → stops f.max_redirects via ≡ false → Ends bound (follow to)) where
  on_redirect-Ends :
      (r : HttpResponse) (o : Option Text) → Ends bound (on_redirect f via follow r o)
  on_redirect-Ends r none = ((via, ok r), refl, within)
  on_redirect-Ends r (some to) = elim (Bool-cases (stops f.max_redirects via)) [
    | inl last ↦ rw last ((via, ok r), refl, within)
    | inr more ↦ rw more (followed to more)
  ]

  on_response-Ends : (o : Result HttpResponse) → Ends bound (on_response f via follow o)
  on_response-Ends (err e) = ((via, err e), refl, within)
  on_response-Ends (ok r) = on_redirect-Ends r r.location

module _ (f : Fetcher) where
  -- The client ends within the rounds that the setting allows.
  do_request-Ends :
      (rounds via : ℕ) (url : Text)
      → 0 < rounds
      → f.max_redirects ≤ via + rounds
      → Ends (max (suc via) f.max_redirects) (do_request f rounds via url)
  unfolding do_request stops
  do_request-Ends zero via url some_round enough = absurd (omega arith)
  do_request-Ends (suc rounds) via url some_round enough =
      on_response-Ends f (suc via) _ (max (suc via) f.max_redirects) (omega arith)
        (λ to more.
          let later : suc via < f.max_redirects = ground arith in
          let (found, e, few) = do_request-Ends rounds (suc via) to (omega arith) (omega arith) in
          (found, e, omega arith))
        (f.site url)

  all_read :
      (bytes : Text) (broken : Option Error) (body : Text)
      → read_all f bytes broken ≡ ok body
      → bytes ≡ body
  all_read bytes none body e = cc e
  all_read bytes (some failure) body e = cc e

  read_limited-length :
      (limit : ℕ) (bytes : Text) (broken : Option Error) (body : Text)
      → read_limited f limit bytes broken ≡ ok body
      → length body ≤ limit
  unfolding read_limited
  read_limited-length limit bytes broken body e = elim (Bool-cases (leb limit (length bytes))) [
    | inl long ↦
        let same_text : take limit bytes ≡ body = cc (rw long at e) in
        let cut = ap length same_text in let l = length-take limit bytes in omega arith
    | inr short ↦ let l = ap length (all_read bytes broken body (rw short at e)) in ground arith
  ]

  page_at-length :
      (url : Text) (body : Result Text) (p : Page)
      → ((t : Text) → body ≡ ok t → length t ≤ f.max_bytes)
      → page_at f url body ≡ ok p
      → length p.body ≤ f.max_bytes
  page_at-length url (err failure) p h e = cc e
  page_at-length url (ok t) p h e =
      let same_page : record { body = t; final_url = url } ≡ p = cc e in
      subst (λ q. length q.body ≤ f.max_bytes) same_page (h t refl)

  page_of-length :
      (response : Result HttpResponse) (p : Page)
      → page_of f response ≡ ok p
      → length p.body ≤ f.max_bytes
  unfolding page_of
  page_of-length (err failure) p e = cc e
  page_of-length (ok r) p e =
      page_at-length r.url (read_limited f f.max_bytes r.body r.broken) p
        (λ t h. read_limited-length f.max_bytes r.body r.broken t h) e

  plain_fetch :
      (rounds : ℕ) (url : Text) (render : Option (Text → Result Page))
      → fetch_with f rounds url false render ≡ fetch_http f rounds url
  plain_fetch rounds url none = refl
  plain_fetch rounds url (some page) = refl

-- A fetch without a browser ends where its rounds are as many as `max_redirects`, and at least one:
-- it makes no more requests than that, and a page that it gives has no more than `max_body_bytes`.
pub fetch_bounded :
    (f : Fetcher) (rounds : ℕ) (url : Text)
    → 0 < rounds
    → f.max_redirects ≤ rounds
    → ((found : ℕ × Result HttpResponse) × (do_request f rounds 0 url ≡ some found)
        × (found.0 ≤ max 1 f.max_redirects))
      × ((page : Result Page) × (fetch f rounds url false ≡ some page)
          × ((p : Page) → page ≡ ok p → length p.body ≤ f.max_bytes))
unfolding fetch fetch_http
fetch_bounded f rounds url some_round enough =
    let (found, e, few) = do_request-Ends f rounds 0 url some_round (omega arith) in
    (
      (found, e, few),
      (
        page_of f found.1,
        plain_fetch f rounds url f.render ∙ ap (found_page f) e,
        λ p h. page_of-length f found.1 p h,
      ),
    )
