-- ===== src/Robots/Cached.antt =====
-- internal/robots/robots.go: how often a host is asked, and whose answer is kept.
use bytefetch.Prelude.{
  Option-cases, ◌≡◌, ◌≢◌, refl, sym, ap, subst, ◌∙◌, Text, same, same_iff, same_refl, Option, none,
  some, List, [], ◌∷◌, if_true, Bool-cases, inl, inr, In, arith,
}
use bytefetch.Url.Net.{UrlPackage}
use bytefetch.Robots.{RobotsData, Client, cached, keep_data, robots_url, from_cache, get_data}
use bytefetch.Robots.Shared.{Shared, Step, miss, keep, Reach, here, next, without}

cached-head :
    (host : Text) (found : Option RobotsData) (c : Client)
    → cached host (keep_data host found c).cache ≡ some found
unfolding cached
cached-head host found c = if_true _ _ (same host host) (same_refl host)

cached-other :
    (host other : Text) (found : Option RobotsData) (c : Client)
    → other ≢ host
    → cached host (keep_data other found c).cache ≡ cached host c.cache
unfolding cached
cached-other host other found c ne = ground (arith, same_iff other host)

without-In : (host other : Text) (hosts : List Text) → In host (without other hosts) → In host hosts
unfolding without
without-In host other [] m = absurd m
without-In host other (h ∷ hosts) m = elim (Bool-cases (same h other)) [
  | inl hit ↦ inr (rw hit at m)
  | inr other_host ↦ elim (rw other_host at m) [
    | inl first ↦ inl first
    | inr later ↦ inr (without-In host other hosts later)
  ]
]

-- The answer for the host is kept, and no call is fetching it.
abbrev pub IsKept : Text → Option RobotsData → Shared → Type 0
IsKept host found s = (cached host s.client.cache ≡ some found) × ¬ In host s.fetching

Step-IsKept :
    (host : Text) (found : Option RobotsData) {s t : Shared}
    → Step s t
    → IsKept host found s
    → IsKept host found t
Step-IsKept host found (miss s other new) (kept, idle) = (
  kept,
  λ m. elim m [
    | inl one ↦ absurd (cc (ap (λ h. cached h s.client.cache) one, kept, new))
    | inr later ↦ idle later
  ],
)
Step-IsKept host found (keep s other answer asked) (kept, idle) = (
  cached-other host other answer s.client (λ one. idle (subst (λ h. In h s.fetching) one asked))
      ∙ kept,
  λ m. idle (without-In host other s.fetching m),
)

Reach-IsKept :
    (host : Text) (found : Option RobotsData) {s t : Shared}
    → IsKept host found s
    → Reach s t
    → IsKept host found t
Reach-IsKept host found h here = h
Reach-IsKept host found h (next r step) = Step-IsKept host found step (Reach-IsKept host found h r)

-- What `getData` gives for a host whose answer is kept, whatever the network would say.
get_data-kept :
    (net : UrlPackage) (fetch : Text → Option RobotsData) (host scheme : Text)
    (found : Option RobotsData) (c : Client)
    → cached host c.cache ≡ some found
    → get_data net fetch host scheme c ≡ (found, c)
unfolding get_data
get_data-kept net fetch host scheme found c known = ap (from_cache net fetch host scheme c) known

without-head : (host : Text) (hosts : List Text) → without host (host ∷ hosts) ≡ hosts
unfolding without
without-head host hosts = if_true _ _ (same host host) (same_refl host)

still_asked : (host : Text) (hosts : List Text) → In host (without host (host ∷ host ∷ hosts))
still_asked host hosts = subst (In host) (sym (without-head host (host ∷ hosts))) (inl refl)

-- A call of `getData` with nobody in between is steps of the calls that share the client.
pub get_data-Reach :
    (net : UrlPackage) (fetch : Text → Option RobotsData) (host scheme : Text) (s : Shared)
    → Reach s (record s { client = (get_data net fetch host scheme s.client).1 })
unfolding get_data
get_data-Reach net fetch host scheme s = elim (Option-cases (cached host s.client.cache)) [
  | inl new ↦
      let found = fetch (robots_url host scheme) in
      subst (λ c. Reach s (record s { client = c }))
        (ap (λ o. (from_cache net fetch host scheme s.client o).1) (sym new))
        (subst
          (λ hosts. Reach s (record { client = keep_data host found s.client; fetching = hosts }))
          (without-head host s.fetching)
          (Reach.next (Reach.next Reach.here (Step.miss s host new))
            (Step.keep (record s { fetching = host ∷ s.fetching }) host found (inl refl))))
  | inr (found, known) ↦
      subst (λ c. Reach s (record s { client = c }))
        (ap (λ o. (from_cache net fetch host scheme s.client o).1) (sym known)) Reach.here
]

-- Once the answer for a host is kept and no call is fetching it, a failure too, it stays, however
-- many other calls of `getData` run, and in whatever order their parts: every later call gets it and
-- leaves the client as it is, whatever the network would say by then and whatever the scheme.
pub get_data_once :
    (net : UrlPackage) (later : Text → Option RobotsData) (host scheme : Text)
    (found : Option RobotsData) (s t : Shared)
    → IsKept host found s
    → Reach s t
    → IsKept host found t × (get_data net later host scheme t.client ≡ (found, t.client))
get_data_once net later host scheme found s t kept r =
    let after = Reach-IsKept host found kept r in
    (after, get_data-kept net later host scheme found t.client after.0)

-- A host whose answer is not kept yet may be fetched by two calls at once, since the cache is free while
-- they fetch: the answer that the first keeps is then replaced by that of the second, whatever the
-- two are.
pub get_data_raced :
    (host : Text) (first second : Option RobotsData) (s : Shared)
    → cached host s.client.cache ≡ none
    → (u : Shared) × (v : Shared) × Reach s u
      × Reach u v
      × (cached host u.client.cache ≡ some first)
      × (cached host v.client.cache ≡ some second)
get_data_raced host first second s new =
    let two : Shared = record s { fetching = host ∷ host ∷ s.fetching } in
    let one : Shared = record {
      client = keep_data host first s.client;
      fetching = without host two.fetching;
    } in
    let asked : Reach s two =
      Reach.next (Reach.next Reach.here (Step.miss s host new))
        (Step.miss (record s { fetching = host ∷ s.fetching }) host new) in
    (
      one,
      _,
      Reach.next asked (Step.keep two host first (inl refl)),
      Reach.next Reach.here (Step.keep one host second (still_asked host s.fetching)),
      cached-head host first s.client,
      cached-head host second one.client,
    )
