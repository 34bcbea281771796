-- ===== src/Tests/Fetch.antt =====
-- Runs of internal/fetch, internal/extract, the waits of internal/robots and the heartbeat of
-- internal/worker.
use bytefetch.Prelude.{
  ℕ, ◌+◌, ◌-◌, ◌≤◌, ◌≡◌, refl, ap, Text, codes, same, to_lower, lower_byte, Bool, true, false,
  Option, none, some, List, [], ◌∷◌, ◌++◌, map, length, max, All, arith,
}
use bytefetch.Json.{lookup, insert}
use bytefetch.Exec.{Result, ok}
use bytefetch.Config.{Config, default_config}
use bytefetch.Store.Rows.{TaskStatus}
use bytefetch.Store.Db.{Db}
use bytefetch.Store.Finish.{quiet}
use bytefetch.Store.Tasks.{claimable}
use bytefetch.Worker.Heartbeat.{tick, heartbeat_loop}
use bytefetch.Worker.Heartbeat.Lease.{heartbeat_keeps_lease}
use bytefetch.Worker.Limiter.{held, set_held, has_channel}
use bytefetch.Worker.Pages.{Page}
use bytefetch.Extract.{Goquery}
use bytefetch.Fetch.Http.{HttpResponse, Fetcher, do_request, fetch}
use bytefetch.Fetch.Http.Bounded.{fetch_bounded}
use bytefetch.Fetch.Renderer.{
  Renderer, or_two, open_pages, launch, new_renderer, acquire_host, with_channel, send_token,
}
use bytefetch.Fetch.Renderer.Frame.{pool_size}
use bytefetch.Fetch.Renderer.Shared.{Shared, begin, step, enter, rendering}
use bytefetch.Fetch.Renderer.Started.{Reach-renders_bound}
use bytefetch.Robots.Wait.{Fetches, wait_host, target_of, begin_wait, end_wait, wait}
use bytefetch.Robots.Wait.Spaced.{wait_spaced}
use bytefetch.Tests.Data.{sample, config, hosts_only}

heartbeat_keeps_lease_example :
    (after : Db) × (heartbeat_loop 1 (map tick (30 ∷ []) ++ tick 40 ∷ []) (quiet sample)
      ≡ (ok tt, quiet after))
    × ((now lease_timeout : ℕ) (locked : ℕ → Bool)
        → now ≤ 40 + lease_timeout
        → All
            (λ t.
              t.id ≡ 1
              → t.status ≡ TaskStatus.processing
              → claimable (now - lease_timeout) locked t ≡ false)
            after.tasks)
heartbeat_keeps_lease_example = heartbeat_keeps_lease 1 (30 ∷ []) 40 sample

-- A site that redirects for ever.
abbrev looping : Text → Result HttpResponse
looping url = ok (record { url = url; body = codes "long"; broken = none; location = some url })

abbrev looping_fetcher : Fetcher
looping_fetcher = record {
  site = looping;
  max_redirects = 5;
  max_bytes = 3;
  user_agent = [];
  render = none;
  browser_enabled = false;
}

fetch_bounded_example :
    ((found : ℕ × Result HttpResponse) × (do_request looping_fetcher 5 0 (codes "a") ≡ some found)
      × (found.0 ≤ max 1 5))
    × ((page : Result Page) × (fetch looping_fetcher 5 (codes "a") false ≡ some page)
        × ((p : Page) → page ≡ ok p → length p.body ≤ 3))
fetch_bounded_example = fetch_bounded looping_fetcher 5 (codes "a") (omega arith) (omega arith)

-- A renderer with four pages, and one call with a slot.
abbrev answers : List (Option ℕ)
answers = some 1 ∷ some 2 ∷ some 3 ∷ some 4 ∷ []

abbrev started : Renderer
started = record {
  cfg = config.browser;
  browser = some 9;
  pool = some (
      record { page = 1; acquired = 5 }
      ∷ record { page = 2; acquired = 5 }
      ∷ record { page = 3; acquired = 5 }
      ∷ record { page = 4; acquired = 5 }
      ∷ []);
  capacity = 4;
  closed = false;
  host_sem = [];
}

starts : new_renderer 5 config.browser (some 9) answers ≡ some started
unfolding new_renderer launch open_pages or_two default_config
starts = refl

abbrev entered : Renderer
entered = record started { host_sem = (codes "h", 1) ∷ [] }

enters : acquire_host (codes "h") started ≡ some entered
unfolding acquire_host with_channel send_token held set_held has_channel same default_config
enters = refl

abbrev one_call : Shared
one_call = record { renderer = entered; live = record { host = codes "h"; page = none } ∷ [] }

Reach-renders_bound_example :
    ((host : Text) → rendering host one_call.live ≤ config.browser.per_host_limit)
    × (pool_size one_call.renderer.pool ≤ or_two config.browser.pool_size)
Reach-renders_bound_example =
    Reach-renders_bound 5 config.browser (some 9) answers started one_call starts
      (step begin (enter (codes "h") enters))

to_a : wait_host hosts_only (codes "a") ≡ some (codes "a")
unfolding wait_host to_lower lower_byte
to_a = refl

-- The host was fetched at 18, so two that begin at 20 and 22 are told 25.
abbrev fetched : Fetches
fetched = (codes "a", 18) ∷ []

abbrev once_waited : Fetches
once_waited = (codes "a", 26) ∷ []

waits : Unit {0}
unfolding wait wait_host begin_wait end_wait target_of lookup insert same to_lower lower_byte
waits = tt

first_wait : wait hosts_only (λ t. t + 1) (codes "a") 7 20 false fetched ≡ (ok tt, once_waited)
unfolding waits
first_wait = refl

second_wait :
    (wait hosts_only
      (λ t. t + 1)
      (codes "a")
      7
      30
      false
      (wait hosts_only (λ t. t + 1) (codes "a") 7 20 false fetched).1).0
    ≡ ok tt
unfolding waits
second_wait = refl

wait_spaced_example :
    let first = wait hosts_only (λ t. t + 1) (codes "a") 7 20 false fetched in
    let second = wait hosts_only (λ t. t + 1) (codes "a") 7 30 false first.1 in
    (a : ℕ) × (b : ℕ) × (lookup (codes "a") first.1 ≡ some a)
    × (lookup (codes "a") second.1 ≡ some b)
    × (a + 7 ≤ b)
wait_spaced_example =
    wait_spaced hosts_only (λ t. t + 1) (codes "a") (codes "a") (codes "a") 7 20 30 false false
      fetched (λ t. omega arith) (omega arith) to_a to_a (ap (λ r. r.0) first_wait) second_wait

abbrev strict : Config
strict = record config { crawl = record config.crawl { respect_nofollow = true } }

-- A package that finds one page, which asks not to be followed.
abbrev one_page : Goquery Unit
one_page = record {
  parse = λ body. ok tt;
  remove = λ selector doc. tt;
  first_text = λ selector doc. codes "T";
  attr = λ selector name doc. some (codes " NoFollow ");
  anchors = λ doc. record { href = codes "/next"; rel = none } ∷ [];
  html = λ selector doc. codes "<p>";
}
