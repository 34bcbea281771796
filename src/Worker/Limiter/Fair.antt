-- ===== src/Worker/Limiter/Fair.antt =====
-- internal/worker/limiter.go: the workers that share one limiter, each between two of its steps.
use bytefetch.Prelude.{
  Bool, ℕ, zero, suc, ◌+◌, ◌≤◌, ◌<◌, ◌≡◌, refl, sym, subst, ◌∙◌, inl, inr, Text, same, same_iff,
  same_refl, true, false, none, some, List, [], ◌∷◌, count_if, In, if◌then◌else◌, arith,
}
use bytefetch.Worker.Limiter.{
  held, HostLimiter, new_host_limiter, get_conc, send, enter, release, pass_rate,
}
use bytefetch.Worker.Limiter.Slots.{
  get_conc-held, get_conc-max_conc, enter_lem, release_lem, Passes, pass_rate-Passes,
}

-- `waiting` are the hosts of the calls of `acquire` that have their slot and wait for the rate,
-- `fetching` those of the fetches under way that have a slot (`fetchWithLimit`), and `sitemaps` those
-- of the fetches of sitemaps, which `fetchSitemapURLs` makes without a slot.
pub record System : Type 0 where
  pub limiter : HostLimiter
  pub waiting : List Text
  pub fetching : List Text
  pub sitemaps : List Text

abbrev pub on_host : Text → List Text → ℕ
on_host host hosts = count_if (λ h. same h host) hosts

-- The list without the first place of the host.
unfoldable pub without : Text → List Text → List Text
without host [] = []
without host (h ∷ hosts) = let rest = without host hosts in if same h host then hosts else h ∷ rest

pub data Step : System → System → Type 0 where
  open_channel :
      (s : System) (host : Text) → Step s (record s { limiter = get_conc host s.limiter })
  take_slot :
      (s : System) (host : Text) (l : HostLimiter)
      → enter host s.limiter ≡ some l
      → Step s (record s { limiter = l; waiting = host ∷ s.waiting })
  go_on :
      (s : System) (fails : Bool) (host : Text) (l : HostLimiter)
      → In host s.waiting
      → pass_rate fails host s.limiter ≡ (true, l)
      → Step s
          (record s { limiter = l; waiting = without host s.waiting; fetching = host ∷ s.fetching })
  give_up :
      (s : System) (fails : Bool) (host : Text) (l : HostLimiter)
      → In host s.waiting
      → pass_rate fails host s.limiter ≡ (false, l)
      → Step s (record s { limiter = l; waiting = without host s.waiting })
  end_fetch :
      (s : System) (host : Text)
      → In host s.fetching
      → Step s (record s { limiter = release host s.limiter; fetching = without host s.fetching })
  begin_sitemap : (s : System) (host : Text) → Step s (record s { sitemaps = host ∷ s.sitemaps })
  end_sitemap :
      (s : System) (host : Text)
      → In host s.sitemaps
      → Step s (record s { sitemaps = without host s.sitemaps })

pub data Reach (s : System) : System → Type 0 where
  here : Reach s s
  next : {t u : System} → Reach s t → Step t u → Reach s u

abbrev pub start : ℕ → ℕ → System
start max_conc rps = record {
  limiter = new_host_limiter max_conc rps;
  waiting = [];
  fetching = [];
  sitemaps = [];
}

on_host-without :
    (host g : Text) (hosts : List Text)
    → In host hosts
    → on_host g hosts ≡ (
        if same host g
        then suc (on_host g (without host hosts))
        else on_host g (without host hosts))
unfolding without
on_host-without host g [] m = absurd m
on_host-without host g (h ∷ hosts) (inl e) =
    ground (arith, same_iff h host, same_iff host g, same_iff h g)
on_host-without host g (h ∷ hosts) (inr m) =
    ground (arith, same_iff h host, same_iff host g, same_iff h g, on_host-without host g hosts m)

-- With a limit set, the channel of every host has one token for each worker that is past it, and no
-- more tokens than it has room.
abbrev Fits : ℕ → System → Type 0
Fits max_conc s =
    (s.limiter.max_conc ≡ max_conc)
    × ((host : Text)
        → (held host s.limiter.conc ≡ on_host host s.waiting + on_host host s.fetching)
          × (held host s.limiter.conc ≤ max_conc))

module _ (max_conc : ℕ) (limited : 0 < max_conc) where
  Step-Fits : {s t : System} → Step s t → Fits max_conc s → Fits max_conc t
  Step-Fits (open_channel s host) (room, fits) =
      (get_conc-max_conc host s.limiter ∙ room, λ g. rw (get_conc-held host g s.limiter) (fits g))
  Step-Fits (take_slot s host l e) (room, fits) =
      let (same_room, free, slots) =
        enter_lem host s.limiter l (subst (λ n. 0 < n) (sym room) limited) e in
      (
        same_room ∙ room,
        λ g. let (filled, fit) = fits g in let added = slots g in ground (arith, same_iff host g),
      )
  Step-Fits (go_on s fails host l m e) (room, fits) =
      let (same_room, slots) =
        subst (Passes s.limiter host) e
          (pass_rate-Passes fails host s.limiter (subst (λ n. 0 < n) (sym room) limited)) in
      (
        same_room ∙ room,
        λ g.
            let (filled, fit) = fits g in
            let kept = slots g in
            let moved = on_host-without host g s.waiting m in ground (arith, same_iff host g),
      )
  Step-Fits (give_up s fails host l m e) (room, fits) =
      let (same_room, slots) =
        subst (Passes s.limiter host) e
          (pass_rate-Passes fails host s.limiter (subst (λ n. 0 < n) (sym room) limited)) in
      (
        same_room ∙ room,
        λ g.
            let (filled, fit) = fits g in
            let removed = slots g in
            let gone = on_host-without host g s.waiting m in ground (arith, same_iff host g),
      )
  Step-Fits (end_fetch s host m) (room, fits) =
      let (same_room, slots) = release_lem host s.limiter (subst (λ n. 0 < n) (sym room) limited) in
      (
        same_room ∙ room,
        λ g.
            let (filled, fit) = fits g in
            let removed = slots g in
            let gone = on_host-without host g s.fetching m in ground (arith, same_iff host g),
      )
  Step-Fits (begin_sitemap s host) h = h
  Step-Fits (end_sitemap s host m) h = h

  start-Fits : (rps : ℕ) → Fits max_conc (start max_conc rps)
  unfolding new_host_limiter held
  start-Fits rps = (refl, λ host. (refl, omega arith))

  Reach-Fits : {s t : System} → Fits max_conc s → Reach s t → Fits max_conc t
  Reach-Fits h here = h
  Reach-Fits h (next r step) = Step-Fits step (Reach-Fits h r)

-- Fetches of sitemaps begin at any time, and each is one more.
more_sitemaps :
    (host : Text) (n : ℕ) (s : System)
    → (t : System) × Reach s t × (t.fetching ≡ s.fetching) × (n ≤ on_host host t.sitemaps)
more_sitemaps host zero s = (s, Reach.here, refl, omega arith)
more_sitemaps host (suc n) s =
    let (t, r, kept, more) = more_sitemaps host n s in
    let added : on_host host (host ∷ t.sitemaps) ≡ suc (on_host host t.sitemaps) =
      ground (arith, same_refl host) in
    (
      record t { sitemaps = host ∷ t.sitemaps },
      Reach.next r (Step.begin_sitemap t host),
      kept,
      omega arith,
    )

-- With a limit set, and whatever the order in which the workers take their steps, no more of them than
-- the limit allows fetch from a host with a slot. The limit holds for those alone: fetches of sitemaps
-- need no slot, and any number of them may be under way on the host besides.
pub Reach-bound :
    (max_conc rps : ℕ) (s : System) (host : Text)
    → 0 < max_conc
    → Reach (start max_conc rps) s
    → (on_host host s.fetching ≤ max_conc)
      × ((n : ℕ)
          → (t : System) × Reach s t × (t.fetching ≡ s.fetching) × (n ≤ on_host host t.sitemaps))
Reach-bound max_conc rps s host limited r =
    let (filled, fit) = (Reach-Fits max_conc limited (start-Fits max_conc limited rps) r).1 host in
    (omega arith, λ n. more_sitemaps host n s)

-- With a limit set, a worker waits for a slot of a host only while the limit is reached there: as many
-- others are past its channel. So no slot is lost, also where the wait for the rate fails.
pub Reach-no_loss :
    (max_conc rps : ℕ) (s : System) (host : Text)
    → 0 < max_conc
    → Reach (start max_conc rps) s
    → enter host s.limiter ≡ none
    → on_host host s.waiting + on_host host s.fetching ≡ max_conc
unfolding enter send
Reach-no_loss max_conc rps s host limited r full =
    let (room, fits) = Reach-Fits max_conc limited (start-Fits max_conc limited rps) r in
    let (filled, fit) = fits host in
    ground (arith, get_conc-held host host s.limiter, get_conc-max_conc host s.limiter)
