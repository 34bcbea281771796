-- ===== src/Fetch/Renderer.antt =====
-- internal/fetch/renderer.go: the browser, its pool of pages and the slots of each host. What the
-- browser and its launcher answer is an argument; a page or a browser is a number. The channel of the
-- pool is the list of the pages in it, a host's channel the number of tokens in it.
pub mod Frame
pub mod Shared
pub mod Started
use bytefetch.Prelude.{
  ℕ, zero, suc, ◌+◌, ◌-◌, Text, codes, is_empty, Bool, true, false, not, ◌&&◌, ◌||◌, Option, none,
  some, List, [], ◌∷◌, ◌++◌, length, ltb, if◌then◌else◌,
}
use bytefetch.Exec.{Error, fetch_failed, Result, ok, err}
use bytefetch.Url.Net.{Url, UrlPackage}
use bytefetch.Config.{BrowserConfig}
use bytefetch.Worker.Limiter.{Slots, held, has_channel, set_held, host_or_default}
use bytefetch.Worker.Pages.{Page}

-- `pooledPage`
pub record PooledPage : Type 0 where
  pub page : ℕ
  pub acquired : ℕ

-- `Renderer`. `pool` is `none` where the channel was never made, and `capacity` is what it was made
-- with.
pub record Renderer : Type 0 where
  pub cfg : BrowserConfig
  pub browser : Option ℕ
  pub pool : Option (List PooledPage)
  pub capacity : ℕ
  pub closed : Bool
  pub host_sem : Slots

-- The two that `NewRenderer` puts in place of a setting that is not positive.
unfoldable pub or_two : ℕ → ℕ
or_two n = if ltb 0 n then n else 2

abbrev pub disabled : BrowserConfig → Renderer
disabled cfg = record {
  cfg = cfg;
  browser = none;
  pool = none;
  capacity = 0;
  closed = false;
  host_sem = [];
}

-- The answers of `browser.Page`, one for each page to open: `none` where the browser fails.
unfoldable pub open_pages : ℕ → ℕ → List (Option ℕ) → List PooledPage → Option (List PooledPage)
open_pages now zero answers pool = some pool
open_pages now (suc n) [] pool = none
open_pages now (suc n) (none ∷ answers) pool = none
open_pages now (suc n) (some p ∷ answers) pool =
    open_pages now n answers (pool ++ record { page = p; acquired = now } ∷ [])

-- `launch`: the new browser, or an error where the renderer is closed or the launcher fails.
unfoldable pub launch : Option ℕ → Renderer → Option Renderer
launch none r = none
launch (some b) r = if r.closed then none else some (record r { browser = some b })

abbrev pub with_pool : BrowserConfig → Renderer → Option (List PooledPage) → Option Renderer
with_pool cfg r none = none
with_pool cfg r (some pool) = some (record r { pool = some pool; capacity = or_two cfg.pool_size })

abbrev pub launched_pool : ℕ → BrowserConfig → List (Option ℕ) → Option Renderer → Option Renderer
launched_pool now cfg answers none = none
launched_pool now cfg answers (some r) =
    with_pool cfg r (open_pages now (or_two cfg.pool_size) answers [])

-- `NewRenderer`. It keeps the settings that it was given: the two in place of `per_host_limit`
-- goes into a copy that nothing reads.
unfoldable pub new_renderer : ℕ → BrowserConfig → Option ℕ → List (Option ℕ) → Option Renderer
new_renderer now cfg started answers =
    if cfg.enabled
    then launched_pool now cfg answers (launch started (disabled cfg))
    else some (disabled cfg)

abbrev pub close_pool : Renderer → Option (List PooledPage) → Option Renderer
close_pool r none = none
close_pool r (some pool) = if r.closed then none else some (record r { closed = true })

-- `Close`: `none` where it panics, which `close` of a nil channel and a second `close` do.
unfoldable pub close : Renderer → Option Renderer
close r = close_pool r r.pool

-- `restart`, with what the launcher answers.
unfoldable pub restart : Option ℕ → Renderer → Option Renderer
restart started r = launch started r

-- What the browser and the launcher answer to one `newPage`: the first page, the browser of a
-- restart, and the page after it.
pub record PageAnswers : Type 0 where
  pub first : Option ℕ
  pub restarted : Option ℕ
  pub second : Option ℕ

abbrev pub page_of_restart : PageAnswers → Renderer → Option Renderer → Option ℕ × Renderer
page_of_restart answers r none = (none, r)
page_of_restart answers r (some r') = (answers.second, r')

abbrev pub page_or_restart : PageAnswers → Renderer → Option ℕ → Option ℕ × Renderer
page_or_restart answers r none = page_of_restart answers r (restart answers.restarted r)
page_or_restart answers r (some p) = (some p, r)

abbrev pub page_of_browser : PageAnswers → Renderer → Option ℕ → Option ℕ × Renderer
page_of_browser answers r none = (none, r)
page_of_browser answers r (some b) = page_or_restart answers r answers.first

-- `newPage`
unfoldable pub new_page : PageAnswers → Renderer → Option ℕ × Renderer
new_page answers r = page_of_browser answers r r.browser

-- The host whose slots a page takes; `none` where its address does not parse.
unfoldable pub sem_host : UrlPackage → Text → Option Text
sem_host net raw = elim (net.parse raw) [
  | none ↦ none
  | some u ↦ some (host_or_default (net.hostname u))
]

-- `acquireHost` after the address: the channel is made where there is none, and the send on it is
-- `none` where it is full, and the call waits.
unfoldable pub with_channel : Text → Renderer → Renderer
with_channel host r =
    if has_channel host r.host_sem then r else record r { host_sem = set_held host 0 r.host_sem }

unfoldable pub send_token : Text → Renderer → Option Renderer
send_token host r =
    if ltb (held host r.host_sem) r.cfg.per_host_limit
    then some (record r { host_sem = set_held host (suc (held host r.host_sem)) r.host_sem })
    else none

unfoldable pub acquire_host : Text → Renderer → Option Renderer
acquire_host host r = send_token host (with_channel host r)

-- `releaseHostSem`: a receive that does not block.
unfoldable pub release_host_sem : Text → Renderer → Renderer
release_host_sem host r =
    if ltb 0 (held host r.host_sem)
    then record r { host_sem = set_held host (held host r.host_sem - 1) r.host_sem }
    else r

abbrev pub opened_page : ℕ → Option ℕ × Renderer → Option PooledPage × Renderer
opened_page now (none, r) = (none, r)
opened_page now (some p, r) = (some (record { page = p; acquired = now }), r)

abbrev pub page_from :
    ℕ → PageAnswers → Renderer → Option (List PooledPage) → Option (Option PooledPage × Renderer)
page_from now answers r (some (p ∷ pool)) = some (some p, record r { pool = some pool })
page_from now answers r (some []) =
    if r.closed then none else some (opened_page now (new_page answers r))
page_from now answers r none = some (opened_page now (new_page answers r))

-- The `select` of `Render`: a page of the pool where there is one, else a new page, with its error.
-- `none` where it panics: a pool that is empty and closed gives a nil page, which `Render` uses.
unfoldable pub take_page : ℕ → PageAnswers → Renderer → Option (Option PooledPage × Renderer)
take_page now answers r = page_from now answers r r.pool

-- `maxLife > 0 && time.Since(p.acquired) > maxLife`
unfoldable pub is_expired : ℕ → PooledPage → Renderer → Bool
is_expired now p r = ltb 0 r.cfg.max_page_lifetime && ltb (p.acquired + r.cfg.max_page_lifetime) now

-- `none` where it panics, which a send on a closed channel does.
abbrev pub return_page : PooledPage → Renderer → Option (List PooledPage) → Option Renderer
return_page p r none = some r
return_page p r (some pool) =
    if r.closed
    then none
    else some
        (if ltb (length pool) r.capacity then record r { pool = some (pool ++ p ∷ []) } else r)

-- `recyclePage`: a page that is too old is closed, and so is one for which the pool has no room.
unfoldable pub recycle_page : ℕ → PooledPage → Renderer → Option Renderer
recycle_page now p r = if is_expired now p r then some r else return_page p r r.pool

-- `Ready`, with the browser's answer to a page and to its navigation.
unfoldable pub ready : Option ℕ → Bool → Renderer → Bool
ready opened navigated r = elim r.browser [
  | none ↦ true
  | some b ↦ if r.cfg.enabled then ready_page opened else true
]
  where
    ready_page : Option ℕ → Bool
    ready_page none = false
    ready_page (some p) = navigated

abbrev pub or_unchanged : Renderer → Option Renderer → Renderer
or_unchanged r none = r
or_unchanged r (some r') = r'

-- One tick of `healthLoop`, with the answers of the browser and the launcher: `none` where the loop
-- ends.
unfoldable pub health_tick : Option ℕ → Bool → Option ℕ → Renderer → Option Renderer
health_tick opened navigated started r =
    if r.closed
    then none
    else some (if ready opened navigated r then r else or_unchanged r (restart started r))
