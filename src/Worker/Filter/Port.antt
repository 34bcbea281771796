-- ===== src/Worker/Filter/Port.antt =====
-- internal/worker/worker.go: a crawl that stays in its domain, from a page on a port of its own.
use bytefetch.Prelude.{
  ℕ, ◌≡◌, ◌≢◌, refl, sym, subst, ◌∙◌, inl, inr, Text, codes, is_empty, same, same_iff, to_lower,
  lower_byte, has_suffix, trim_space, true, false, none, some, List, [], ◌∷◌, ◌++◌, drop, length,
  ◌-◌, zero, suc, Bool-cases, Option-cases, All, arith,
}
use bytefetch.Config.{Config}
use bytefetch.Url.Net.{Url, UrlPackage}
use bytefetch.Worker.Filter.{
  same_host_or_subdomain, base_host, target, filter_url, filter_link, keep_links, filter_links,
}
use bytefetch.Worker.Filter.Kept.{filter_links_lem}

-- No byte of the text is a colon.
abbrev pub NoColon : Text → Type 0
NoColon s = All (λ c. c ≢ b':') s

drop-NoColon : (n : ℕ) (s : Text) → NoColon s → NoColon (drop n s)
drop-NoColon zero s h = h
drop-NoColon (suc n) [] h = tt
drop-NoColon (suc n) (c ∷ s) h = drop-NoColon n s h.1

to_lower-NoColon : (s : Text) → NoColon s → NoColon (to_lower s)
unfolding to_lower lower_byte
to_lower-NoColon [] h = tt
to_lower-NoColon (c ∷ s) h = (ground arith, to_lower-NoColon s h.1)

has_suffix-NoColon : (s t : Text) → has_suffix s t ≡ true → NoColon s → NoColon t
unfolding has_suffix
has_suffix-NoColon s t h k =
    subst NoColon ((same_iff (drop (length s - length t) s) t).0 (ground arith))
      (drop-NoColon _ s k)

other_host :
    (base target : Text)
    → ¬ NoColon base
    → NoColon target
    → same_host_or_subdomain base target ≡ false
unfolding same_host_or_subdomain
other_host base target port name = elim (Bool-cases (same base target)) [
  | inl one ↦ absurd (port (subst NoColon (sym ((same_iff base target).0 one)) name))
  | inr two ↦ elim (Bool-cases (has_suffix target (codes "." ++ base))) [
    | inl below ↦ absurd (port (has_suffix-NoColon target (codes "." ++ base) below name).1)
    | inr apart ↦ ground arith
  ]
]

module _ (net : UrlPackage) (cfg : Config) (base : Url) where
  filter_url-none :
      (u : Url)
      → ¬ NoColon (base_host net cfg true base)
      → NoColon (net.hostname (target net cfg true base u))
      → filter_url net cfg true base u ≡ none
  unfolding filter_url
  filter_url-none u port name =
      let away =
        other_host (base_host net cfg true base)
          (to_lower (net.hostname (target net cfg true base u))) port (to_lower-NoColon _ name) in
      ground arith

  -- The link, where it parses, leads to a host whose name has no colon.
  abbrev pub LeadsToName : Text → Type 0
  LeadsToName raw =
      (u : Url)
      → net.parse (trim_space raw) ≡ some u
      → NoColon (net.hostname (target net cfg true base u))

  keep_links-none :
      (links : List Text)
      → ¬ NoColon (base_host net cfg true base)
      → All LeadsToName links
      → keep_links net cfg true base links ≡ []
  unfolding keep_links filter_link
  keep_links-none [] port names = refl
  keep_links-none (raw ∷ links) port (name, names) = elim (Bool-cases (is_empty (trim_space raw))) [
    | inl blank ↦ rw blank (keep_links-none links port names)
    | inr text ↦ elim (Option-cases (net.parse (trim_space raw))) [
      | inl bad ↦ rw (text, bad) (keep_links-none links port names)
      | inr (u, parsed) ↦
          rw (text, parsed, filter_url-none u port (name u parsed))
            (keep_links-none links port names)
    ]
  ]

-- A crawl or a map that stays in its domain follows no link at all from a page on a port other than
-- its scheme's, where the links lead to hosts whose names have no colon, so to no IPv6 address: the
-- page's host is compared with its port, the link's without.
pub filter_links_port :
    (net : UrlPackage) (cfg : Config) (base_url : Text) (base : Url) (links : List Text)
    → All (LeadsToName net cfg base) links
    → net.parse base_url ≡ some base
    → ¬ NoColon (base_host net cfg true base)
    → filter_links net cfg true base_url links ≡ []
filter_links_port net cfg base_url base links names parsed port =
    filter_links_lem net cfg true base_url base links parsed
    ∙ keep_links-none net cfg base links port names
