-- ===== src/Url/Canonical/Idempotent.antt =====
-- When a canonical URL is its own canonical form.
use bytefetch.Prelude.{
  suc, ◌-◌, ◌<◌, ◌≤◌, ◌≡◌, ◌↔◌, refl, sym, ap, subst, ◌∙◌, ◌⊎◌, inl, inr, Text, codes, same,
  to_lower, to_lower_idem, has_suffix, trim_suffix, Bool, true, false, Option, none, some, [], ◌∷◌,
  length, length-take, if◌then◌else◌, Bool-cases, arith,
}
use bytefetch.Url.Net.{Url}
use bytefetch.Url.Path.{slash}
use bytefetch.Url.Path.Rooted.{clean_path_rooted, clean_path_at_root}
use bytefetch.Url.Canonical.{trim_port, canonical_url}

-- The port that goes with a scheme.
abbrev pub default_port : Text → Option Text
default_port scheme =
    if same (to_lower scheme) (codes "http")
    then some (codes ":80")
    else if same (to_lower scheme) (codes "https")
    then some (codes ":443")
    else none

-- The canonical host still ends in the default port: the URL's host had it twice.
abbrev pub HasPortTwice : Url → Type 0
HasPortTwice u =
    (port : Text) × (default_port u.scheme ≡ some port)
    × (has_suffix (canonical_url true u).host port ≡ true)

-- The path of a URL with a host: it is empty or begins with a slash.
abbrev pub HasRootedPath : Url → Type 0
HasRootedPath u = (u.path ≡ []) ⊎ ((s : Text) × (u.path ≡ slash ∷ s))

length-to_lower : (s : Text) → length (to_lower s) ≡ length s
unfolding to_lower
length-to_lower [] = refl
length-to_lower (c ∷ s) = ap suc (length-to_lower s)

has_suffix-length : (s t : Text) → has_suffix s t ≡ true → length t ≤ length s
unfolding has_suffix
has_suffix-length s t h = ground arith

trim_suffix_cases :
    (s t : Text)
    → 0 < length t
    → ((has_suffix s t ≡ true) × (length (trim_suffix s t) < length s))
      ⊎ ((has_suffix s t ≡ false) × (trim_suffix s t ≡ s))
unfolding trim_suffix
trim_suffix_cases s t pos = elim (Bool-cases (has_suffix s t)) [
  | inl ends ↦ inl (
    ends,
    rw ends
        (let le = has_suffix-length s t ends in omega (arith, length-take (length s - length t) s)),
  )
  | inr other ↦ inr (other, rw other)
]

default_port_cases :
    (scheme : Text)
    → ((default_port scheme ≡ none) × ((host : Text) → trim_port scheme host ≡ host))
      ⊎ ((port : Text) × (default_port scheme ≡ some port)
          × (0 < length port)
          × ((host : Text) → trim_port scheme host ≡ trim_suffix host port))
unfolding trim_port
default_port_cases scheme = elim (Bool-cases (same (to_lower scheme) (codes "http"))) [
  | inl http ↦ inr (codes ":80", rw http, omega arith, λ host. rw http)
  | inr other ↦ elim (Bool-cases (same (to_lower scheme) (codes "https"))) [
    | inl https ↦ inr (codes ":443", rw (other, https), omega arith, λ host. rw (other, https))
    | inr none_known ↦ inl (rw (other, none_known), λ host. rw (other, none_known))
  ]
]

default_port-to_lower : (scheme : Text) → default_port (to_lower scheme) ≡ default_port scheme
default_port-to_lower scheme = rw (to_lower_idem scheme)

trim_port-to_lower : (scheme host : Text) → trim_port (to_lower scheme) host ≡ trim_port scheme host
unfolding trim_port
trim_port-to_lower scheme host = rw (to_lower_idem scheme)

canonical-host :
    (q : Bool) (u : Url) → (canonical_url q u).host ≡ to_lower (trim_port u.scheme u.host)
unfolding canonical_url
canonical-host q u = ap to_lower (trim_port-to_lower u.scheme u.host)

canonical-host_twice :
    (q : Bool) (u : Url)
    → (canonical_url q (canonical_url q u)).host
      ≡ to_lower (trim_port u.scheme (to_lower (trim_port u.scheme u.host)))
unfolding canonical_url
canonical-host_twice q u = rw (
  trim_port-to_lower (to_lower u.scheme) (to_lower (trim_port (to_lower u.scheme) u.host)),
  trim_port-to_lower u.scheme (to_lower (trim_port (to_lower u.scheme) u.host)),
  trim_port-to_lower u.scheme u.host,
)

-- The host of a canonical URL is canonical unless the host had its default port twice.
host_iff :
    (q : Bool) (u : Url)
    → ((canonical_url q (canonical_url q u)).host ≡ (canonical_url q u).host) ↔ ¬ HasPortTwice u
host_iff q u = elim (default_port_cases u.scheme) [
  | inl (portless, kept) ↦ (
    (λ _ (port, e, _). cc (portless, e)),
    (λ _.
        canonical-host_twice q u
        ∙ ap to_lower (kept (to_lower (trim_port u.scheme u.host)))
        ∙ to_lower_idem (trim_port u.scheme u.host)
        ∙ sym (canonical-host q u)),
  )
  | inr (port, e, pos, trims) ↦
      let once = to_lower (trim_port u.scheme u.host) in
      let twice = canonical-host_twice q u ∙ ap to_lower (trims once) in
      elim (trim_suffix_cases once port pos) [
        | inl (ends, shorter) ↦ (
          (λ same_host _.
              let e' = ap length (sym twice ∙ same_host ∙ canonical-host q u) in
              absurd (omega (arith, length-to_lower (trim_suffix once port)))),
          (λ never. absurd (never (port, e, rw (canonical-host true u) ends))),
        )
        | inr (other, kept) ↦ (
          (λ _ (port', e', ends).
              let same_port : port ≡ port' = cc (e, e') in
              let ends' : has_suffix once port' ≡ true = rw (← canonical-host true u) ends in
              cc (other, subst (λ p. has_suffix once p ≡ true) (sym same_port) ends')),
          (λ _.
              twice
              ∙ ap to_lower kept
              ∙ to_lower_idem (trim_port u.scheme u.host)
              ∙ sym (canonical-host q u)),
        )
      ]
]

canonical-path_twice :
    (q : Bool) (u : Url)
    → HasRootedPath u
    → (canonical_url q (canonical_url q u)).path ≡ (canonical_url q u).path
unfolding canonical_url
canonical-path_twice q u (inl e) = rw (e, clean_path_at_root.0) clean_path_at_root.1
canonical-path_twice q u (inr (s, e)) = rw e (clean_path_rooted s).2

query_twice :
    (q : Bool) (raw : Text) → (if q then [] else (if q then [] else raw)) ≡ (if q then [] else raw)
query_twice true raw = refl
query_twice false raw = refl

abbrev rebuild : Url → Text → Text → Text → Text → Url
rebuild u scheme host path query = record u {
  scheme = scheme;
  host = host;
  path = path;
  raw_query = query;
  fragment = [];
}

-- The fields that are left are settled by one pass.
canonical-eq :
    (q : Bool) (u : Url)
    → (canonical_url q (canonical_url q u)).host ≡ (canonical_url q u).host
    → (canonical_url q (canonical_url q u)).path ≡ (canonical_url q u).path
    → canonical_url q (canonical_url q u) ≡ canonical_url q u
unfolding canonical_url
canonical-eq q u h p =
    λ i. rebuild u (to_lower_idem u.scheme i) (h i) (p i) (query_twice q u.raw_query i)

-- A URL with an empty path or one from the root has a canonical form whose canonical form it is,
-- unless its host ends in the default port of its scheme twice, and then it is not.
pub canonical_url_idempotent_iff :
    (q : Bool) (u : Url)
    → HasRootedPath u
    → (canonical_url q (canonical_url q u) ≡ canonical_url q u) ↔ ¬ HasPortTwice u
canonical_url_idempotent_iff q u rooted = (
  (λ e. (host_iff q u).0 (ap (λ v. v.host) e)),
  (λ once. canonical-eq q u ((host_iff q u).1 once) (canonical-path_twice q u rooted)),
)
