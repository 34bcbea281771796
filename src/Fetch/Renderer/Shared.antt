-- ===== src/Fetch/Renderer/Shared.antt =====
-- internal/fetch/renderer.go: the calls of `Render` that share a renderer, in any order of their
-- steps, with the health loop and `Close` among them.
use bytefetch.Prelude.{
  ℕ, suc, ◌≤◌, ◌≡◌, refl, sym, ap, ◌∙◌, subst, Text, same, same_iff, Bool, Option, none, some, List,
  [], ◌∷◌, ◌++◌, count_if, if◌then◌else◌, arith,
}
use bytefetch.Worker.Limiter.{held}
use bytefetch.Fetch.Renderer.{
  PooledPage, Renderer, PageAnswers, take_page, recycle_page, close, health_tick, acquire_host,
  release_host_sem,
}
use bytefetch.Fetch.Renderer.Frame.{
  pool_size, Frame, take_page-Frame, recycle_page-Frame, close-Frame, health_tick-Frame,
  acquire_host_lem, release_host_sem_lem,
}

-- A call of `Render` that has a slot of its host, with its page where it has one.
pub record Rendering : Type 0 where
  pub host : Text
  pub page : Option PooledPage

pub record Shared : Type 0 where
  pub renderer : Renderer
  pub live : List Rendering

-- A call gets a slot; it gets a page, or fails and lets go of its slot; it ends, its page being
-- recycled before its slot is free; the health loop ticks; the renderer closes.
pub data Step : Shared → Shared → Type 0 where
  enter :
      {r s : Renderer} {live : List Rendering} (host : Text)
      → acquire_host host r ≡ some s
      → Step
          (record { renderer = r; live = live })
          (record { renderer = s; live = record { host = host; page = none } ∷ live })
  take :
      {r s : Renderer} (before after : List Rendering) (host : Text) (now : ℕ)
      (answers : PageAnswers) (p : PooledPage)
      → take_page now answers r ≡ some (some p, s)
      → Step
          (record { renderer = r; live = before ++ record { host = host; page = none } ∷ after })
          (record { renderer = s; live = before ++ record { host = host; page = some p } ∷ after })
  fail :
      {r s : Renderer} (before after : List Rendering) (host : Text) (now : ℕ)
      (answers : PageAnswers)
      → take_page now answers r ≡ some (none, s)
      → Step
          (record { renderer = r; live = before ++ record { host = host; page = none } ∷ after })
          (record { renderer = release_host_sem host s; live = before ++ after })
  leave :
      {r s : Renderer} (before after : List Rendering) (host : Text) (now : ℕ) (p : PooledPage)
      → recycle_page now p r ≡ some s
      → Step
          (record { renderer = r; live = before ++ record { host = host; page = some p } ∷ after })
          (record { renderer = release_host_sem host s; live = before ++ after })
  tick :
      {r s : Renderer} {live : List Rendering} (opened : Option ℕ) (navigated : Bool)
      (started : Option ℕ)
      → health_tick opened navigated started r ≡ some s
      → Step (record { renderer = r; live = live }) (record { renderer = s; live = live })
  end_all :
      {r s : Renderer} {live : List Rendering}
      → close r ≡ some s
      → Step (record { renderer = r; live = live }) (record { renderer = s; live = live })

pub data Reach (start : Renderer) : Shared → Type 0 where
  begin : Reach start (record { renderer = start; live = [] })
  step : {s t : Shared} → Reach start s → Step s t → Reach start t

-- The calls that have a slot of the host.
unfoldable pub rendering : Text → List Rendering → ℕ
rendering host live = count_if (λ x. same x.host host) live

-- The tokens are those of the calls, none more than the setting allows, and the pool fits.
pub record IsBounded (cfg_limit capacity : ℕ) (s : Shared) : Type 0 where
  pub limit : s.renderer.cfg.per_host_limit ≡ cfg_limit
  pub size : s.renderer.capacity ≡ capacity
  pub tokens : (g : Text) → held g s.renderer.host_sem ≡ rendering g s.live
  pub few : (g : Text) → held g s.renderer.host_sem ≤ cfg_limit
  pub fits : pool_size s.renderer.pool ≤ capacity

rendering-split :
    (g : Text) (before after : List Rendering) (x : Rendering)
    → rendering g (before ++ x ∷ after) ≡ (
        if same x.host g
        then suc (rendering g (before ++ after))
        else rendering g (before ++ after))
unfolding rendering
rendering-split g [] after x = ground arith
rendering-split g (y ∷ before) after x = ground (arith, rendering-split g before after x)

module _ (limit capacity : ℕ) where
  -- An operation that leaves the slots alone keeps the bounds, and those of the same calls.
  framed :
      (r s : Renderer) (live live' : List Rendering)
      → ((g : Text) → rendering g live ≡ rendering g live')
      → Frame r s
      → IsBounded limit capacity (record { renderer = r; live = live })
      → IsBounded limit capacity (record { renderer = s; live = live' })
  framed r s live live' calls f b = record {
    limit = ap (λ c. c.per_host_limit) f.cfg ∙ b.limit;
    size = f.capacity ∙ b.size;
    tokens = λ g. ap (held g) f.host_sem ∙ b.tokens g ∙ calls g;
    few = λ g. subst (λ m. held g m ≤ limit) (sym f.host_sem) (b.few g);
    fits =
        let small = b.fits in
        let same_size = b.size in
        let kept = f.fits (omega arith) in let after_size = f.capacity in omega arith;
  }

  -- A call that ends lets go of its slot.
  released :
      (r : Renderer) (before after : List Rendering) (x : Rendering)
      → IsBounded limit capacity (record { renderer = r; live = before ++ x ∷ after })
      → IsBounded limit capacity
          (record { renderer = release_host_sem x.host r; live = before ++ after })
  released r before after x b =
      let (cfg, size, pool, tokens) = release_host_sem_lem x.host r in
      record {
        limit = ap (λ c. c.per_host_limit) cfg ∙ b.limit;
        size = size ∙ b.size;
        tokens = λ g. ground (arith, tokens g, b.tokens g, rendering-split g before after x);
        few = λ g. ground (arith, tokens g, b.few g);
        fits = subst (λ o. pool_size o ≤ capacity) (sym pool) b.fits;
      }

  entered :
      (host : Text) (r s : Renderer) (live : List Rendering)
      → acquire_host host r ≡ some s
      → IsBounded limit capacity (record { renderer = r; live = live })
      → IsBounded limit capacity
          (record { renderer = s; live = record { host = host; page = none } ∷ live })
  unfolding rendering
  entered host r s live e b =
      let (cfg, size, pool, room, tokens) = acquire_host_lem host r s e in
      record {
        limit = ap (λ c. c.per_host_limit) cfg ∙ b.limit;
        size = size ∙ b.size;
        tokens = λ g. ground (arith, tokens g, b.tokens g);
        few = λ g. ground (arith, tokens g, b.few g, room, b.limit, same_iff host g);
        fits = subst (λ o. pool_size o ≤ capacity) (sym pool) b.fits;
      }

  rendering-same :
      (g host : Text) (before after : List Rendering) (p q : Option PooledPage)
      → rendering g (before ++ record { host = host; page = p } ∷ after)
        ≡ rendering g (before ++ record { host = host; page = q } ∷ after)
  rendering-same g host before after p q =
      rendering-split g before after (record { host = host; page = p })
      ∙ sym (rendering-split g before after (record { host = host; page = q }))

  Step-IsBounded :
      {s t : Shared} → Step s t → IsBounded limit capacity s → IsBounded limit capacity t
  Step-IsBounded (enter {r} {s} {live} host e) b = entered host r s live e b
  Step-IsBounded (take {r} {s} before after host now answers p e) b =
      framed r s _ _ (λ g. rendering-same g host before after none (some p))
        (take_page-Frame now answers r s (some p) e) b
  Step-IsBounded (fail {r} {s} before after host now answers e) b =
      released s before after (record { host = host; page = none })
        (framed r s _ _ (λ g. refl) (take_page-Frame now answers r s none e) b)
  Step-IsBounded (leave {r} {s} before after host now p e) b =
      released s before after (record { host = host; page = some p })
        (framed r s _ _ (λ g. refl) (recycle_page-Frame now p r s e) b)
  Step-IsBounded (tick {r} {s} {live} opened navigated started e) b =
      framed r s live live (λ g. refl) (health_tick-Frame r s opened navigated started e) b
  Step-IsBounded (end_all {r} {s} {live} e) b =
      framed r s live live (λ g. refl) (close-Frame r s e) b

  pub Reach-IsBounded :
      (start : Renderer)
      → IsBounded limit capacity (record { renderer = start; live = [] })
      → {s : Shared} → Reach start s
      → IsBounded limit capacity s
  Reach-IsBounded start b begin = b
  Reach-IsBounded start b (step before next) = Step-IsBounded next (Reach-IsBounded start b before)
