-- ===== src/Worker/Limiter/Slots.antt =====
-- internal/worker/limiter.go: the map from hosts to channels.
use bytefetch.Prelude.{
  ℕ, suc, ◌-◌, ◌<◌, ◌≡◌, refl, sym, ap, subst, not, ◌&&◌, lt→ltb, Text, same, same_iff, Bool, true,
  false, some, [], ◌∷◌, ltb, if◌then◌else◌, if_true, if_false, Bool-cases, inl, inr, ◌∙◌, arith,
}
use bytefetch.Worker.Limiter.{
  Slots, held, pass_rate, get_limiter, has_channel, set_held, HostLimiter, get_conc, release_conc,
  send, enter, release,
}

pub held-set_held :
    (host g : Text) (n : ℕ) (slots : Slots)
    → held g (set_held host n slots) ≡ (if same host g then n else held g slots)
unfolding held set_held
held-set_held host g n [] = refl
held-set_held host g n ((h, k) ∷ slots) =
    ground (arith, same_iff h host, same_iff host g, same_iff h g, held-set_held host g n slots)

pub no_channel-held :
    (host : Text) (slots : Slots) → has_channel host slots ≡ false → held host slots ≡ 0
unfolding has_channel held
no_channel-held host [] h = refl
no_channel-held host ((g, n) ∷ slots) h = ground (arith, no_channel-held host slots)

-- A channel that is made holds nothing.
pub get_conc-held :
    (host g : Text) (h : HostLimiter) → held g (get_conc host h).conc ≡ held g h.conc
unfolding get_conc
get_conc-held host g h = elim (Bool-cases (has_channel host h.conc)) [
  | inl old ↦ rw old refl
  | inr new ↦ rw new (
      held-set_held host g 0 h.conc
      ∙ ground (arith, no_channel-held host h.conc new, same_iff host g))
]

pub release_conc-held :
    (host g : Text) (h : HostLimiter)
    → held g (release_conc host h).conc ≡ (if same host g then held g h.conc - 1 else held g h.conc)
unfolding release_conc
release_conc-held host g h = elim (Bool-cases (has_channel host h.conc)) [
  | inl old ↦
      rw old (held-set_held host g (held host h.conc - 1) h.conc ∙ ground (arith, same_iff host g))
  | inr new ↦ ground (arith, no_channel-held host h.conc new, same_iff host g)
]

pub get_conc-max_conc : (host : Text) (h : HostLimiter) → (get_conc host h).max_conc ≡ h.max_conc
unfolding get_conc
get_conc-max_conc host h = ground arith

-- The call that gets a slot finds room for it, and takes one token more from its own host alone.
pub enter_lem :
    (host : Text) (h l : HostLimiter)
    → 0 < h.max_conc
    → enter host h ≡ some l
    → (l.max_conc ≡ h.max_conc)
      × (held host h.conc < h.max_conc)
      × ((g : Text) → held g l.conc ≡ (if same host g then suc (held g h.conc) else held g h.conc))
unfolding enter send
enter_lem host h l limited e =
    let room : held host (get_conc host h).conc < (get_conc host h).max_conc = ground arith in
    let made : record (get_conc host h) {
      conc = set_held host (suc (held host (get_conc host h).conc)) (get_conc host h).conc;
    }
        ≡ l =
      ground arith in
    (
      ap (λ x. x.max_conc) (sym made) ∙ get_conc-max_conc host h,
      subst (λ n. n < h.max_conc) (get_conc-held host host h)
          (subst (λ n. held host (get_conc host h).conc < n) (get_conc-max_conc host h) room),
      λ g.
          ap (λ x. held g x.conc) (sym made)
          ∙ held-set_held host g (suc (held host (get_conc host h).conc)) (get_conc host h).conc
          ∙ ground (arith, get_conc-held host g h, same_iff host g),
    )

release_conc-max_conc :
    (host : Text) (h : HostLimiter) → (release_conc host h).max_conc ≡ h.max_conc
unfolding release_conc
release_conc-max_conc host h = ground arith

pub release_lem :
    (host : Text) (h : HostLimiter)
    → 0 < h.max_conc
    → ((release host h).max_conc ≡ h.max_conc)
      × ((g : Text)
          → held g (release host h).conc
            ≡ (if same host g then held g h.conc - 1 else held g h.conc))
unfolding release
release_lem host h limited =
    rw (lt→ltb 0 h.max_conc limited) (release_conc-max_conc host h, λ g. release_conc-held host g h)

get_limiter-same :
    (host : Text) (h : HostLimiter)
    → ((get_limiter host h).max_conc ≡ h.max_conc) × ((get_limiter host h).conc ≡ h.conc)
unfolding get_limiter
get_limiter-same host h = ground arith

-- A call that passes the rate keeps its slot, and one that fails gives it back.
abbrev pub Passes : HostLimiter → Text → Bool × HostLimiter → Type 0
Passes h host r =
    (r.1.max_conc ≡ h.max_conc)
    × ((g : Text)
        → held g r.1.conc ≡ (if not r.0 && same host g then held g h.conc - 1 else held g h.conc))

get_limiter-Passes : (host : Text) (h : HostLimiter) → Passes h host (true, get_limiter host h)
get_limiter-Passes host h =
    let (room, slots) = get_limiter-same host h in (room, λ g. ap (held g) slots)

given_back-Passes :
    (host : Text) (h : HostLimiter)
    → 0 < h.max_conc
    → Passes h host (false, release host (get_limiter host h))
given_back-Passes host h limited =
    let (room, slots) = get_limiter-same host h in
    let (room', slots') =
      release_lem host (get_limiter host h) (subst (λ n. 0 < n) (sym room) limited) in
    (room' ∙ room, λ g. slots' g ∙ ap (λ s. if same host g then held g s - 1 else held g s) slots)

pub pass_rate-Passes :
    (fails : Bool) (host : Text) (h : HostLimiter)
    → 0 < h.max_conc
    → Passes h host (pass_rate fails host h)
unfolding pass_rate
pass_rate-Passes fails host h limited = elim (Bool-cases (ltb 0 h.rps)) [
  | inr free ↦ subst (Passes h host) (sym (if_false _ _ _ free)) (refl, λ g. refl)
  | inl rated ↦ elim (Bool-cases fails) [
    | inl bad ↦
        subst (Passes h host) (sym (if_true _ _ _ rated ∙ if_true _ _ _ bad))
          (given_back-Passes host h limited)
    | inr good ↦
        subst (Passes h host) (sym (if_true _ _ _ rated ∙ if_false _ _ _ good))
          (get_limiter-Passes host h)
  ]
]
