-- ===== src/Robots/Wait/Spaced.antt =====
-- internal/robots/robots.go: the time between the waits of a host.
use bytefetch.Prelude.{
  ℕ, ◌+◌, ◌<◌, ◌≤◌, ◌≡◌, sym, ap, ◌∙◌, subst, Text, same, same_refl, Bool, true, false, some, ltb,
  lt→ltb, if_true, arith, Bool-cases, inl, inr,
}
use bytefetch.Json.{lookup, lookup-insert}
use bytefetch.Exec.{ok}
use bytefetch.Url.Net.{UrlPackage}
use bytefetch.Robots.Wait.{
  Fetches, wait_host, target_of, begin_wait, end_wait, slept, wait_on, wait,
}

slept-lookup :
    (net : UrlPackage) (woken : ℕ → ℕ) (host : Text) (now target : ℕ) (cancelled : Bool)
    (fetches : Fetches)
    → (slept net woken host now target cancelled fetches).0 ≡ ok tt
    → lookup host (slept net woken host now target cancelled fetches).1 ≡ some (woken target)
unfolding end_wait
slept-lookup net woken host now target true fetches h = elim (Bool-cases (ltb now target)) [
  | inl early ↦ cc (rw early at h)
  | inr late ↦ rw late (
      lookup-insert host host (woken target) fetches
      ∙ if_true _ _ (same host host) (same_refl host))
]
slept-lookup net woken host now target false fetches h =
    lookup-insert host host (woken target) fetches ∙ if_true _ _ (same host host) (same_refl host)

target_of-late : (delay now last : ℕ) → last + delay ≤ target_of delay now (some last)
unfolding target_of
target_of-late delay now last = ground arith

module _ (net : UrlPackage) (woken : ℕ → ℕ) where
  -- A wait for a host is the sleep until its target, where there is a delay.
  wait-slept :
      (raw host : Text) (delay now : ℕ) (cancelled : Bool) (fetches : Fetches)
      → 0 < delay
      → wait_host net raw ≡ some host
      → wait net woken raw delay now cancelled fetches
        ≡ slept net woken host now (begin_wait host delay now fetches) cancelled fetches
  unfolding wait
  wait-slept raw host delay now cancelled fetches some_delay known =
      if_true _ _ (ltb 0 delay) (lt→ltb 0 delay some_delay)
      ∙ ap (λ o. wait_on net woken o delay now cancelled fetches) known

  -- After a wait that goes on, the time of the host is when its sleep was over.
  wait-lookup :
      (raw host : Text) (delay now : ℕ) (cancelled : Bool) (fetches : Fetches)
      → 0 < delay
      → wait_host net raw ≡ some host
      → (wait net woken raw delay now cancelled fetches).0 ≡ ok tt
      → lookup host (wait net woken raw delay now cancelled fetches).1
        ≡ some (woken (begin_wait host delay now fetches))
  wait-lookup raw host delay now cancelled fetches some_delay known goes_on =
      let same_wait = wait-slept raw host delay now cancelled fetches some_delay known in
      ap (λ r. lookup host r.1) same_wait
      ∙ slept-lookup net woken host now (begin_wait host delay now fetches) cancelled fetches
          (sym (ap (λ r. r.0) same_wait) ∙ goes_on)

-- Two waits for one host that go on, the second begun after the end of the first, go on at least the
-- delay apart.
pub wait_spaced :
    (net : UrlPackage) (woken : ℕ → ℕ) (raw raw' host : Text) (delay now now' : ℕ)
    (cancelled cancelled' : Bool) (fetches : Fetches)
    → ((t : ℕ) → t ≤ woken t)
    → 0 < delay
    → wait_host net raw ≡ some host
    → wait_host net raw' ≡ some host
    → (wait net woken raw delay now cancelled fetches).0 ≡ ok tt
    → (wait net woken raw' delay now' cancelled'
        (wait net woken raw delay now cancelled fetches).1).0
      ≡ ok tt
    → let first = wait net woken raw delay now cancelled fetches in
      let second = wait net woken raw' delay now' cancelled' first.1 in
      (a : ℕ) × (b : ℕ) × (lookup host first.1 ≡ some a)
      × (lookup host second.1 ≡ some b)
      × (a + delay ≤ b)
unfolding begin_wait
wait_spaced net woken raw raw' host delay now now' cancelled cancelled' fetches late some_delay
      known known' goes_on goes_on' =
    let first = wait net woken raw delay now cancelled fetches in
    let a = woken (begin_wait host delay now fetches) in
    let at_a =
      wait-lookup net woken raw host delay now cancelled fetches some_delay known goes_on in
    let at_b =
      wait-lookup net woken raw' host delay now' cancelled' first.1 some_delay known' goes_on' in
    let b = woken (begin_wait host delay now' first.1) in
    let gap =
      subst (λ o. a + delay ≤ target_of delay now' o) (sym at_a) (target_of-late delay now' a) in
    let over = late (begin_wait host delay now' first.1) in (a, b, at_a, at_b, omega arith)
