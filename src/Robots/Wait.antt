-- ===== src/Robots/Wait.antt =====
-- internal/robots/robots.go: `Wait`. It reads the time of the last fetch of a host and later writes
-- the new one, and its mutex is free in between: the two parts are `begin_wait` and `end_wait`.
pub mod Spaced
use bytefetch.Prelude.{
  ℕ, ◌+◌, ◌≤◌, ◌≡◌, refl, sym, ap, ◌∙◌, Text, is_empty, same, same_refl, to_lower, Bool, true,
  false, Option, none, some, List, [], ◌∷◌, ltb, if◌then◌else◌, if_true, arith, Bool-cases, inl,
  inr,
}
use bytefetch.Json.{lookup, insert, lookup-insert}
use bytefetch.Exec.{Result, ok, err, context_done}
use bytefetch.Url.Net.{Url, UrlPackage}

-- The map `lastFetch`.
abbrev pub Fetches : Type 0
Fetches = List (Text × ℕ)

abbrev pub host_of : Option Url → Option Text
host_of none = none
host_of (some u) = if is_empty u.host then none else some (to_lower u.host)

unfoldable pub wait_host : UrlPackage → Text → Option Text
wait_host net raw = host_of (net.parse raw)

-- When a call that begins now may go on.
unfoldable pub target_of : ℕ → ℕ → Option ℕ → ℕ
target_of delay now none = now
target_of delay now (some last) = if ltb now (last + delay) then last + delay else now

unfoldable pub begin_wait : Text → ℕ → ℕ → Fetches → ℕ
begin_wait host delay now fetches = target_of delay now (lookup host fetches)

unfoldable pub end_wait : Text → ℕ → Fetches → Fetches
end_wait host now fetches = insert host now fetches

-- `Wait` with nobody in between: `woken t` is the time when a sleep until `t` is over, and
-- `cancelled` says whether the context is done before that.
module _ (net : UrlPackage) (woken : ℕ → ℕ) where
  abbrev pub slept : Text → ℕ → ℕ → Bool → Fetches → Result Unit × Fetches
  slept host now target true fetches =
      if ltb now target
      then (err context_done, fetches)
      else (ok tt, end_wait host (woken target) fetches)
  slept host now target false fetches = (ok tt, end_wait host (woken target) fetches)

  abbrev pub wait_on : Option Text → ℕ → ℕ → Bool → Fetches → Result Unit × Fetches
  wait_on none delay now cancelled fetches = (ok tt, fetches)
  wait_on (some host) delay now cancelled fetches =
      slept host now (begin_wait host delay now fetches) cancelled fetches

  -- `delay` is what `Delay` gives for the address.
  unfoldable pub wait : Text → ℕ → ℕ → Bool → Fetches → Result Unit × Fetches
  wait raw delay now cancelled fetches =
      if ltb 0 delay
      then wait_on (wait_host net raw) delay now cancelled fetches
      else (ok tt, fetches)
