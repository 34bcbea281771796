-- ===== src/Fetch/Renderer/Frame.antt =====
-- internal/fetch/renderer.go: what each operation leaves alone.
use bytefetch.Prelude.{
  ℕ, suc, ◌-◌, ◌<◌, ◌≤◌, ◌≡◌, refl, sym, ap, ◌∙◌, subst, Text, same, same_iff, Bool, true, Option,
  none, some, List, [], ◌∷◌, ◌++◌, length, length-append, ltb, ltb→lt, if◌then◌else◌, Bool-cases,
  inl, inr, arith,
}
use bytefetch.Worker.Limiter.{held, has_channel, set_held}
use bytefetch.Worker.Limiter.Slots.{held-set_held, no_channel-held}
use bytefetch.Fetch.Renderer.{
  PooledPage, Renderer, PageAnswers, launch, restart, close, new_page, page_of_restart,
  page_or_restart, opened_page, page_of_browser, close_pool, is_expired, page_from, take_page,
  return_page, recycle_page, or_unchanged, ready, health_tick, with_channel, send_token,
  acquire_host, release_host_sem,
}

abbrev pub pool_size : Option (List PooledPage) → ℕ
pool_size none = 0
pool_size (some pool) = length pool

-- The settings, the slots and the capacity stay, and the pool fits its channel as it did before.
pub record Frame (r s : Renderer) : Type 0 where
  pub cfg : s.cfg ≡ r.cfg
  pub host_sem : s.host_sem ≡ r.host_sem
  pub capacity : s.capacity ≡ r.capacity
  pub fits : pool_size r.pool ≤ r.capacity → pool_size s.pool ≤ s.capacity

Frame-refl : (r : Renderer) → Frame r r
Frame-refl r = record { cfg = refl; host_sem = refl; capacity = refl; fits = λ h. h }

launch-Frame : (o : Option ℕ) (r s : Renderer) → launch o r ≡ some s → Frame r s
unfolding launch
launch-Frame none r s e = cc e
launch-Frame (some b) r s e = elim (Bool-cases r.closed) [
  | inl off ↦ cc (rw off at e)
  | inr on ↦
      let made : record r { browser = some b } ≡ s = cc (rw on at e) in
      subst (Frame r) made (record { cfg = refl; host_sem = refl; capacity = refl; fits = λ h. h })
]

page_of_restart-Frame :
    (answers : PageAnswers) (r : Renderer) (o : Option Renderer)
    → ((s : Renderer) → o ≡ some s → Frame r s)
    → Frame r (page_of_restart answers r o).1
page_of_restart-Frame answers r none h = Frame-refl r
page_of_restart-Frame answers r (some s) h = h s refl

page_or_restart-Frame :
    (answers : PageAnswers) (r : Renderer) (o : Option ℕ) → Frame r (page_or_restart answers r o).1
unfolding restart
page_or_restart-Frame answers r none =
    page_of_restart-Frame answers r _ (λ s k. launch-Frame answers.restarted r s k)
page_or_restart-Frame answers r (some p) = Frame-refl r

new_page-Frame : (answers : PageAnswers) (r : Renderer) → Frame r (new_page answers r).1
unfolding new_page
new_page-Frame answers r = with_browser r.browser
  where
    with_browser : (o : Option ℕ) → Frame r (page_of_browser answers r o).1
    with_browser none = Frame-refl r
    with_browser (some b) = page_or_restart-Frame answers r answers.first

opened_page-Frame :
    (now : ℕ) (r : Renderer) (x : Option ℕ × Renderer) → Frame r x.1 → Frame r (opened_page now x).1
opened_page-Frame now r (none, s) h = h
opened_page-Frame now r (some p, s) h = h

module _ (now : ℕ) (answers : PageAnswers) (r s : Renderer) (p : Option PooledPage) where
  opened-Frame : opened_page now (new_page answers r) ≡ (p, s) → Frame r s
  opened-Frame e =
      subst (λ x. Frame r x.1) e
        (opened_page-Frame now r (new_page answers r) (new_page-Frame answers r))

  page_from-Frame :
      (o : Option (List PooledPage))
      → r.pool ≡ o
      → page_from now answers r o ≡ some (p, s)
      → Frame r s
  page_from-Frame none h e = opened-Frame (cc e)
  page_from-Frame (some []) h e = elim (Bool-cases r.closed) [
    | inl off ↦ cc (rw off at e)
    | inr on ↦ opened-Frame (cc (rw on at e))
  ]
  page_from-Frame (some (q ∷ pool)) h e =
      let made : record r { pool = some pool } ≡ s = cc e in
      subst (Frame r) made (record {
        cfg = refl;
        host_sem = refl;
        capacity = refl;
        fits = λ k. let l = ap pool_size h in omega arith;
      })

  pub take_page-Frame : take_page now answers r ≡ some (p, s) → Frame r s
  unfolding take_page
  take_page-Frame e = page_from-Frame r.pool refl e

module _ (now : ℕ) (p : PooledPage) (r s : Renderer) where
  return_page-Frame :
      (o : Option (List PooledPage)) → r.pool ≡ o → return_page p r o ≡ some s → Frame r s
  return_page-Frame none h e = subst (Frame r) (cc e) (Frame-refl r)
  return_page-Frame (some pool) h e = elim (Bool-cases r.closed) [
    | inl off ↦ cc (rw off at e)
    | inr on ↦ elim (Bool-cases (ltb (length pool) r.capacity)) [
      | inl room ↦
          let made : record r { pool = some (pool ++ p ∷ []) } ≡ s = cc (rw (on, room) at e) in
          subst (Frame r) made (record {
            cfg = refl;
            host_sem = refl;
            capacity = refl;
            fits = λ k.
                let more = length-append pool (p ∷ []) in
                let less = ltb→lt (length pool) r.capacity room in omega arith;
          })
      | inr full ↦ let made : r ≡ s = cc (rw (on, full) at e) in subst (Frame r) made (Frame-refl r)
    ]
  ]

  pub recycle_page-Frame : recycle_page now p r ≡ some s → Frame r s
  unfolding recycle_page
  recycle_page-Frame e = elim (Bool-cases (is_expired now p r)) [
    | inl old ↦ let made : r ≡ s = cc (rw old at e) in subst (Frame r) made (Frame-refl r)
    | inr young ↦ return_page-Frame r.pool refl (rw young at e)
  ]

module _ (r s : Renderer) where
  close_pool-Frame : (o : Option (List PooledPage)) → close_pool r o ≡ some s → Frame r s
  close_pool-Frame none e = cc e
  close_pool-Frame (some pool) e = elim (Bool-cases r.closed) [
    | inl off ↦ cc (rw off at e)
    | inr on ↦
        let made : record r { closed = true } ≡ s = cc (rw on at e) in
        subst (Frame r) made
          (record { cfg = refl; host_sem = refl; capacity = refl; fits = λ h. h })
  ]

  pub close-Frame : close r ≡ some s → Frame r s
  unfolding close
  close-Frame e = close_pool-Frame r.pool e

  or_unchanged-Frame :
      (o : Option Renderer) → ((t : Renderer) → o ≡ some t → Frame r t) → Frame r (or_unchanged r o)
  or_unchanged-Frame none h = Frame-refl r
  or_unchanged-Frame (some t) h = h t refl

  pub health_tick-Frame :
      (opened : Option ℕ) (navigated : Bool) (started : Option ℕ)
      → health_tick opened navigated started r ≡ some s
      → Frame r s
  unfolding health_tick restart ready
  health_tick-Frame opened navigated started e = elim (Bool-cases r.closed) [
    | inl off ↦ cc (rw off at e)
    | inr on ↦ elim (Bool-cases (ready opened navigated r)) [
      | inl fine ↦ let made : r ≡ s = cc (rw (on, fine) at e) in subst (Frame r) made (Frame-refl r)
      | inr bad ↦
          let made : or_unchanged r (launch started r) ≡ s = cc (rw (on, bad) at e) in
          subst (Frame r) made (or_unchanged-Frame _ (λ t k. launch-Frame started r t k))
    ]
  ]

-- A channel that is made holds nothing.
with_channel_lem :
    (host : Text) (r : Renderer)
    → let s = with_channel host r in
      (s.cfg ≡ r.cfg)
      × (s.capacity ≡ r.capacity)
      × (s.pool ≡ r.pool)
      × ((g : Text) → held g s.host_sem ≡ held g r.host_sem)
unfolding with_channel
with_channel_lem host r = elim (Bool-cases (has_channel host r.host_sem)) [
  | inl old ↦ rw old (refl, refl, refl, λ g. refl)
  | inr new ↦ rw new (
    refl,
    refl,
    refl,
    λ g.
        held-set_held host g 0 r.host_sem
        ∙ ground (arith, no_channel-held host r.host_sem new, same_iff host g),
  )
]

send_token_lem :
    (host : Text) (r s : Renderer)
    → send_token host r ≡ some s
    → (s.cfg ≡ r.cfg)
      × (s.capacity ≡ r.capacity)
      × (s.pool ≡ r.pool)
      × (held host r.host_sem < r.cfg.per_host_limit)
      × ((g : Text)
          → held g s.host_sem
            ≡ (if same host g then suc (held host r.host_sem) else held g r.host_sem))
unfolding send_token
send_token_lem host r s e = elim (Bool-cases (ltb (held host r.host_sem) r.cfg.per_host_limit)) [
  | inl room ↦
      let made : record r { host_sem = set_held host (suc (held host r.host_sem)) r.host_sem } ≡ s =
        cc (rw room at e) in
      (
        ap (λ x. x.cfg) (sym made),
        ap (λ x. x.capacity) (sym made),
        ap (λ x. x.pool) (sym made),
        ltb→lt _ _ room,
        λ g.
            ap (λ x. held g x.host_sem) (sym made)
            ∙ held-set_held host g (suc (held host r.host_sem)) r.host_sem,
      )
  | inr full ↦ cc (rw full at e)
]

-- The call that gets a slot finds room for it, and takes one token of its own host.
pub acquire_host_lem :
    (host : Text) (r s : Renderer)
    → acquire_host host r ≡ some s
    → (s.cfg ≡ r.cfg)
      × (s.capacity ≡ r.capacity)
      × (s.pool ≡ r.pool)
      × (held host r.host_sem < r.cfg.per_host_limit)
      × ((g : Text)
          → held g s.host_sem
            ≡ (if same host g then suc (held g r.host_sem) else held g r.host_sem))
unfolding acquire_host
acquire_host_lem host r s e =
    let (cfg, capacity, pool, kept) = with_channel_lem host r in
    let (cfg', capacity', pool', room, sent) = send_token_lem host (with_channel host r) s e in
    (
      cfg' ∙ cfg,
      capacity' ∙ capacity,
      pool' ∙ pool,
      (let limit = ap (λ c. c.per_host_limit) cfg in let same_tokens = kept host in omega arith),
      λ g. sent g ∙ ground (arith, kept g, kept host, same_iff host g),
    )

pub release_host_sem_lem :
    (host : Text) (r : Renderer)
    → let s = release_host_sem host r in
      (s.cfg ≡ r.cfg)
      × (s.capacity ≡ r.capacity)
      × (s.pool ≡ r.pool)
      × ((g : Text)
          → held g s.host_sem ≡ (if same host g then held g r.host_sem - 1 else held g r.host_sem))
unfolding release_host_sem
release_host_sem_lem host r = elim (Bool-cases (ltb 0 (held host r.host_sem))) [
  | inl some_token ↦ rw some_token (
    refl,
    refl,
    refl,
    λ g.
        held-set_held host g (held host r.host_sem - 1) r.host_sem
        ∙ ground (arith, same_iff host g),
  )
  | inr empty ↦ rw empty (refl, refl, refl, λ g. ground (arith, same_iff host g))
]
