-- ===== src/Robots.antt =====
-- internal/robots/robots.go: the robots client and its cache. The fetch and the package
-- temoto/robotstxt are parameters: `fetch` gives what is at an address, and `none` where there is
-- nothing to be read. The client's mutex guards its maps, and it is free while `getData` fetches: its
-- two parts are `cached` and `keep_data`, a call with nobody in between is `get_data`, and calls in any
-- order are the steps of `Robots.Shared`.
pub mod Shared
pub mod Cached
pub mod Rules
pub mod Wait
use bytefetch.Prelude.{
  ℕ, ◌≤◌, Text, codes, is_empty, same, to_lower, Bool, true, false, ◌&&◌, Option, none, some, List,
  [], ◌∷◌, ◌++◌, ltb, if◌then◌else◌,
}
use bytefetch.Url.Net.{Url, UrlPackage}

-- `robotstxt.RobotsData`: `TestAgent` of a path and an agent, the `CrawlDelay` of the group that
-- `FindGroup` gives for an agent (0 where there is none), and `Sitemaps`.
pub record RobotsData : Type 0 where
  pub test_agent : Text → Text → Bool
  pub crawl_delay : Text → ℕ
  pub sitemaps : List Text

-- `Client`, with no `lastFetch`, which only `Wait` reads.
pub record Client : Type 0 where
  pub cache : List (Text × Option RobotsData)
  pub fail_open : Bool

unfoldable pub new_client : Bool → Client
new_client fail_open = record { cache = []; fail_open = fail_open }

unfoldable pub cached : Text → List (Text × Option RobotsData) → Option (Option RobotsData)
cached host [] = none
cached host ((h, found) ∷ cache) =
    let rest = cached host cache in if same h host then some found else rest

abbrev pub robots_url : Text → Text → Text
robots_url host scheme =
    (if is_empty scheme then codes "https" else scheme)
    ++ codes "://"
    ++ host
    ++ codes "/robots.txt"

abbrev pub agent_or_default : Text → Text
agent_or_default ua = if is_empty ua then codes "Mozilla/5.0" else ua

-- The second part of `getData`: `c.cache[host] = data`.
abbrev pub keep_data : Text → Option RobotsData → Client → Client
keep_data host found c = record c { cache = (host, found) ∷ c.cache }

module _ (net : UrlPackage) (fetch : Text → Option RobotsData) where
  abbrev pub from_cache :
      Text → Text → Client → Option (Option RobotsData) → Option RobotsData × Client
  from_cache host scheme c (some found) = (found, c)
  from_cache host scheme c none =
      let found = fetch (robots_url host scheme) in (found, keep_data host found c)

  -- `getData`, with nobody in between.
  unfoldable pub get_data : Text → Text → Client → Option RobotsData × Client
  get_data host scheme c = from_cache host scheme c (cached host c.cache)

  -- The data for the host of a URL; `none` where the URL is bad or has no host.
  abbrev pub data_of : Option Url → Client → Option (Option RobotsData × Client)
  data_of none c = none
  data_of (some u) c =
      if is_empty u.host then none else some (get_data (to_lower u.host) u.scheme c)

  abbrev pub test_of : Text → Text → Client → Option (Option RobotsData × Client) → Bool × Client
  test_of raw ua c none = (true, c)
  test_of raw ua c (some (none, c')) = (c'.fail_open, c')
  test_of raw ua c (some (some found, c')) = (found.test_agent raw (agent_or_default ua), c')

  -- `Allowed`
  unfoldable pub allowed : Text → Text → Client → Bool × Client
  allowed raw ua c = test_of raw ua c (data_of (net.parse raw) c)

  abbrev pub delay_of : Text → ℕ → Client → Option (Option RobotsData × Client) → ℕ × Client
  delay_of ua default_delay c none = (default_delay, c)
  delay_of ua default_delay c (some (none, c')) = (default_delay, c')
  delay_of ua default_delay c (some (some found, c')) =
      let d = found.crawl_delay (agent_or_default ua) in
      (if ltb 0 d && ltb default_delay d then d else default_delay, c')

  -- `Delay`
  unfoldable pub delay : Text → Text → ℕ → Client → ℕ × Client
  delay raw ua default_delay c = delay_of ua default_delay c (data_of (net.parse raw) c)

  abbrev pub sitemaps_of : Client → Option (Option RobotsData × Client) → List Text × Client
  sitemaps_of c none = ([], c)
  sitemaps_of c (some (none, c')) = ([], c')
  sitemaps_of c (some (some found, c')) = (found.sitemaps, c')

  -- `Sitemaps`
  unfoldable pub sitemaps : Text → Client → List Text × Client
  sitemaps raw c = sitemaps_of c (data_of (net.parse raw) c)
