-- ===== src/Fetch/Http.antt =====
-- internal/fetch/fetcher.go: a fetch, over HTTP or in the browser. What a server answers to one
-- request is a parameter, and so is `Render`; the client follows redirects as package net/http
-- documents: it asks `CheckRedirect` with the requests that it has made.
pub mod Bounded
use bytefetch.Prelude.{
  ℕ, zero, suc, ◌-◌, Text, Bool, true, false, ◌&&◌, Option, none, some, List, [], ◌∷◌, length, take,
  leb, if◌then◌else◌,
}
use bytefetch.Exec.{Error, Result, ok, err}
use bytefetch.Url.Net.{Url, UrlPackage}
use bytefetch.Config.{HttpConfig, BrowserConfig}
use bytefetch.Worker.Pages.{Page}

-- A response: its address, the bytes of its body up to its end or an error of the connection, and
-- where it redirects to.
pub record HttpResponse : Type 0 where
  pub url : Text
  pub body : Text
  pub broken : Option Error
  pub location : Option Text

-- `Fetcher`, with its `http.Client` by what it answers.
pub record Fetcher : Type 0 where
  pub site : Text → Result HttpResponse
  pub max_redirects : ℕ
  pub max_bytes : ℕ
  pub user_agent : Text
  pub render : Option (Text → Result Page)
  pub browser_enabled : Bool

-- `NewFetcher`
unfoldable pub new_fetcher :
    HttpConfig
    → Option (Text → Result Page)
    → BrowserConfig
    → (Text → Result HttpResponse)
    → Fetcher
new_fetcher http renderer browser site = record {
  site = site;
  max_redirects = http.max_redirects;
  max_bytes = http.max_body_bytes;
  user_agent = http.user_agent;
  render = renderer;
  browser_enabled = browser.enabled;
}

-- The function `CheckRedirect`: whether the last response is used as it is.
unfoldable pub stops : ℕ → ℕ → Bool
stops max_redirects via = leb max_redirects via

module _ (f : Fetcher) (via : ℕ) (follow : Text → Option (ℕ × Result HttpResponse)) where
  -- A redirect is followed where `CheckRedirect` lets it.
  abbrev pub on_redirect : HttpResponse → Option Text → Option (ℕ × Result HttpResponse)
  on_redirect r none = some (via, ok r)
  on_redirect r (some to) = if stops f.max_redirects via then some (via, ok r) else follow to

  abbrev pub on_response : Result HttpResponse → Option (ℕ × Result HttpResponse)
  on_response (err e) = some (via, err e)
  on_response (ok r) = on_redirect r r.location

-- `client.Do`, with `via` requests made before: the requests in all, and the last response. The
-- rounds are those that are left; `none` where they run out.
module _ (f : Fetcher) where
  unfoldable pub do_request : ℕ → ℕ → Text → Option (ℕ × Result HttpResponse)
  do_request zero via url = none
  do_request (suc rounds) via url =
      on_response f (suc via) (λ to. do_request rounds (suc via) to) (f.site url)

  -- `io.ReadAll(io.LimitReader(…, maxBytes))`: an error beyond the limit is not seen.
  abbrev pub read_all : Text → Option Error → Result Text
  read_all bytes none = ok bytes
  read_all bytes (some e) = err e

  unfoldable pub read_limited : ℕ → Text → Option Error → Result Text
  read_limited limit bytes broken =
      if leb limit (length bytes) then ok (take limit bytes) else read_all bytes broken

  abbrev pub page_at : Text → Result Text → Result Page
  page_at url (err e) = err e
  page_at url (ok body) = ok (record { body = body; final_url = url })

  unfoldable pub page_of : Result HttpResponse → Result Page
  page_of (err e) = err e
  page_of (ok r) = page_at r.url (read_limited f.max_bytes r.body r.broken)

  -- The fetch without a browser. The status of the response is not looked at.
  abbrev pub found_page : Option (ℕ × Result HttpResponse) → Option (Result Page)
  found_page none = none
  found_page (some (requests, response)) = some (page_of response)

  unfoldable pub fetch_http : ℕ → Text → Option (Result Page)
  fetch_http rounds url = found_page (do_request rounds 0 url)

  abbrev pub fetch_with : ℕ → Text → Bool → Option (Text → Result Page) → Option (Result Page)
  fetch_with rounds url use_js none = fetch_http rounds url
  fetch_with rounds url use_js (some render) =
      if use_js && f.browser_enabled then some (render url) else fetch_http rounds url

  -- `Fetch`
  unfoldable pub fetch : ℕ → Text → Bool → Option (Result Page)
  fetch rounds url use_js = fetch_with rounds url use_js f.render
