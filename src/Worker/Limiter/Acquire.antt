-- ===== src/Worker/Limiter/Acquire.antt =====
-- internal/worker/limiter.go: a whole call of `acquire` as steps of the workers that share a limiter.
use bytefetch.Prelude.{
  ◌≡◌, refl, sym, subst, inl, inr, Text, same, same_refl, Bool, true, false, ◌&&◌, Option, none,
  some, List, ◌∷◌, ltb, if◌then◌else◌, if_true, if_false, Bool-cases,
}
use bytefetch.Url.Net.{UrlPackage}
use bytefetch.Worker.Limiter.{
  HostLimiter, extract_host, host_or_default, get_conc, enter, pass_rate, Acquired, entered,
  waiting, refused, after_rate, after_send, acquire,
}
use bytefetch.Worker.Limiter.Fair.{System, Step, without, Reach}

-- Where a call of `acquire` leaves the system: a worker that is let in is among those that fetch.
abbrev pub Leads : System → Acquired × HostLimiter → Type 0
Leads s (entered host, l) = Reach s (record s { limiter = l; fetching = host ∷ s.fetching })
Leads s (waiting host, l) = Reach s (record s { limiter = l })
Leads s (refused, l) = Reach s (record s { limiter = l })

without-head : (host : Text) (hosts : List Text) → without host (host ∷ hosts) ≡ hosts
unfolding without
without-head host hosts = if_true _ _ (same host host) (same_refl host)

after_rate-Leads :
    (s : System) (fails : Bool) (host : Text) (l : HostLimiter) (r : Bool × HostLimiter)
    → enter host s.limiter ≡ some l
    → pass_rate fails host l ≡ r
    → Leads s (after_rate host r)
after_rate-Leads s fails host l (true, l') slot rate =
    subst
      (λ hosts. Reach s (record s { limiter = l'; waiting = hosts; fetching = host ∷ s.fetching }))
      (without-head host s.waiting)
      (Reach.next (Reach.next Reach.here (Step.take_slot s host l slot)) (
        Step.go_on (record s { limiter = l; waiting = host ∷ s.waiting }) fails host l' (inl refl)
          rate))
after_rate-Leads s fails host l (false, l') slot rate =
    subst (λ hosts. Reach s (record s { limiter = l'; waiting = hosts }))
      (without-head host s.waiting)
      (Reach.next (Reach.next Reach.here (Step.take_slot s host l slot)) (
        Step.give_up (record s { limiter = l; waiting = host ∷ s.waiting }) fails host l' (inl refl)
          rate))

opened-Reach :
    (s : System) (host : Text) (limited : Bool)
    → Reach s (record s { limiter = if limited then get_conc host s.limiter else s.limiter })
opened-Reach s host true = Reach.next Reach.here (Step.open_channel s host)
opened-Reach s host false = Reach.here

after_send-Leads :
    (s : System) (fails limited : Bool) (host : Text) (o : Option HostLimiter)
    → enter host s.limiter ≡ o
    → Leads s (after_send fails host (if limited then get_conc host s.limiter else s.limiter) o)
after_send-Leads s fails limited host none slot = opened-Reach s host limited
after_send-Leads s fails limited host (some l) slot = after_rate-Leads s fails host l _ slot refl

-- A call of `acquire` is a sequence of steps of the system of workers, whatever it comes to, so what
-- holds after every step holds after it.
pub acquire-Leads :
    (net : UrlPackage) (done wait_fails : Bool) (raw : Text) (s : System)
    → Leads s (acquire net done wait_fails raw s.limiter)
unfolding acquire
acquire-Leads net done wait_fails raw s =
    let host = host_or_default (extract_host net raw) in
    let limited = ltb 0 s.limiter.max_conc in
    let opened = if limited then get_conc host s.limiter else s.limiter in
    elim (Bool-cases (limited && done)) [
      | inl stop ↦
          subst (Leads s) (sym (if_true (refused, opened) _ (limited && done) stop))
            (opened-Reach s host limited)
      | inr go ↦
          subst (Leads s)
            (sym (
              if_false (refused, opened) (after_send wait_fails host opened (enter host s.limiter))
                (limited && done) go))
            (after_send-Leads s wait_fails limited host (enter host s.limiter) refl)
    ]
