-- ===== src/Fetch/Renderer/Started.antt =====
-- internal/fetch/renderer.go: the bounds of a renderer that `NewRenderer` has made.
use bytefetch.Prelude.{
  ℕ, zero, suc, ◌+◌, ◌≤◌, ◌≡◌, refl, sym, ap, ◌∙◌, subst, Text, Option, none, some, List, [], ◌∷◌,
  ◌++◌, length, length-append, if_true, if_false, Bool-cases, inl, inr, arith,
}
use bytefetch.Config.{BrowserConfig}
use bytefetch.Worker.Limiter.{held}
use bytefetch.Fetch.Renderer.{
  PooledPage, Renderer, or_two, disabled, open_pages, launch, with_pool, launched_pool,
  new_renderer,
}
use bytefetch.Fetch.Renderer.Frame.{pool_size}
use bytefetch.Fetch.Renderer.Shared.{Shared, Reach, rendering, IsBounded, Reach-IsBounded}

open_pages-length :
    (now n : ℕ) (answers : List (Option ℕ)) (pool opened : List PooledPage)
    → open_pages now n answers pool ≡ some opened
    → length opened ≡ length pool + n
unfolding open_pages
open_pages-length now zero answers pool opened e =
    let same_pool : pool ≡ opened = cc e in let l = ap length same_pool in omega arith
open_pages-length now (suc n) [] pool opened e = cc e
open_pages-length now (suc n) (none ∷ answers) pool opened e = cc e
open_pages-length now (suc n) (some p ∷ answers) pool opened e =
    let rest =
      open_pages-length now n answers (pool ++ record { page = p; acquired = now } ∷ []) opened e in
    let more = length-append pool (record { page = p; acquired = now } ∷ []) in omega arith

-- The bounds hold of a renderer that starts.
abbrev IsStarted : BrowserConfig → Renderer → Type 0
IsStarted cfg r =
    (capacity : ℕ) × (capacity ≤ or_two cfg.pool_size)
    × IsBounded cfg.per_host_limit capacity (record { renderer = r; live = [] })

disabled-IsStarted : (cfg : BrowserConfig) → IsStarted cfg (disabled cfg)
unfolding held rendering
disabled-IsStarted cfg = (
  0,
  omega arith,
  record {
    limit = refl;
    size = refl;
    tokens = λ g. refl;
    few = λ g. omega arith;
    fits = omega arith;
  },
)

with_pool-IsStarted :
    (now : ℕ) (cfg : BrowserConfig) (answers : List (Option ℕ)) (r s : Renderer)
    (opened : Option (List PooledPage))
    → r.cfg ≡ cfg
    → r.host_sem ≡ []
    → open_pages now (or_two cfg.pool_size) answers [] ≡ opened
    → with_pool cfg r opened ≡ some s
    → IsStarted cfg s
unfolding held rendering
with_pool-IsStarted now cfg answers r s none same_cfg no_slots from e = cc e
with_pool-IsStarted now cfg answers r s (some pool) same_cfg no_slots from e =
    let made : record r { pool = some pool; capacity = or_two cfg.pool_size } ≡ s = cc e in
    let size = open_pages-length now (or_two cfg.pool_size) answers [] pool from in
    subst (IsStarted cfg) made (started_with (omega arith))
  where
    started_with :
        length pool ≡ or_two cfg.pool_size
        → IsStarted cfg (record r { pool = some pool; capacity = or_two cfg.pool_size })
    started_with size = (
      or_two cfg.pool_size,
      omega arith,
      record {
        limit = ap (λ c. c.per_host_limit) same_cfg;
        size = refl;
        tokens = λ g. ap (held g) no_slots;
        few = λ g. let none_held = ap (held g) no_slots in omega arith;
        fits = omega arith;
      },
    )

launched_pool-IsStarted :
    (now : ℕ) (cfg : BrowserConfig) (started : Option ℕ) (answers : List (Option ℕ)) (r : Renderer)
    → launched_pool now cfg answers (launch started (disabled cfg)) ≡ some r
    → IsStarted cfg r
unfolding launch
launched_pool-IsStarted now cfg none answers r e = cc e
launched_pool-IsStarted now cfg (some b) answers r e =
    with_pool-IsStarted now cfg answers (record (disabled cfg) { browser = some b }) r _ refl refl
      refl e

new_renderer-IsStarted :
    (now : ℕ) (cfg : BrowserConfig) (started : Option ℕ) (answers : List (Option ℕ)) (r : Renderer)
    → new_renderer now cfg started answers ≡ some r
    → IsStarted cfg r
unfolding new_renderer
new_renderer-IsStarted now cfg started answers r e = elim (Bool-cases cfg.enabled) [
  | inl on ↦
      launched_pool-IsStarted now cfg started answers r (sym (if_true _ _ cfg.enabled on) ∙ e)
  | inr off ↦
      let made : disabled cfg ≡ r = cc (sym (if_false _ _ cfg.enabled off) ∙ e) in
      subst (IsStarted cfg) made (disabled-IsStarted cfg)
]

-- In every order of the calls that share a renderer, with the health loop and `Close` among them, no
-- more calls than `per_host_limit` work on pages of one host, and the pool holds no more pages than
-- its size says, 2 being the size where the setting is 0.
pub Reach-renders_bound :
    (now : ℕ) (cfg : BrowserConfig) (started : Option ℕ) (answers : List (Option ℕ)) (r : Renderer)
    (s : Shared)
    → new_renderer now cfg started answers ≡ some r
    → Reach r s
    → ((host : Text) → rendering host s.live ≤ cfg.per_host_limit)
      × (pool_size s.renderer.pool ≤ or_two cfg.pool_size)
Reach-renders_bound now cfg started answers r s e reached =
    let (capacity, small, start) = new_renderer-IsStarted now cfg started answers r e in
    let b = Reach-IsBounded cfg.per_host_limit capacity r start reached in
    (
      (λ host. subst (λ n. n ≤ cfg.per_host_limit) (b.tokens host) (b.few host)),
      (let fits = b.fits in omega arith),
    )
