-- ===== src/Worker/Filter/Kept.antt =====
-- internal/worker/worker.go: the links that `filterLinks` keeps.
use bytefetch.Prelude.{
  ◌≡◌, ◌≢◌, refl, ◌⊎◌, Text, is_empty, ◌++◌, to_lower, trim_space, Bool, true, false, some, List,
  [], ◌∷◌, In,
}
use bytefetch.Config.{Config}
use bytefetch.Url.Net.{Url, UrlPackage}
use bytefetch.Url.Canonical.{canonicalize}
use bytefetch.Worker.Filter.{
  path_ext, is_blocked_ext, is_allowed_scheme, same_host_or_subdomain, absolute, base_host, target,
  target_text, keep_links, filter_links,
}

-- The host is the other one, or stands below it.
abbrev pub IsWithin : Text → Text → Type 0
IsWithin base host =
    (base ≢ []) × (host ≢ []) × ((host ≡ base) ⊎ ((p : Text) × (host ≡ p ++ b'.' ∷ base)))

-- The scheme is one of the list, whatever the case of letters.
abbrev pub HasScheme : List Text → Text → Type 0
HasScheme allowed scheme =
    (scheme ≢ []) × (a : Text) × In a allowed × (to_lower a ≡ to_lower scheme)

-- The extension is one of the list, which may be in any case of letters.
abbrev pub IsBlocked : List Text → Text → Type 0
IsBlocked blocked ext = (ext ≢ []) × (b : Text) × In b blocked × (to_lower b ≡ ext)

module _ (net : UrlPackage) (cfg : Config) (same_domain : Bool) where
  -- The tests of the code on one of the links.
  abbrev Passes : Url → List Text → Text → Type 0
  Passes base links canon =
      (raw : Text) × (u : Url) × In raw links
      × (is_empty (trim_space raw) ≡ false)
      × (net.parse (trim_space raw) ≡ some u)
      × (is_allowed_scheme (absolute net cfg same_domain base u).scheme cfg.crawl.allowed_schemes
          ≡ true)
      × (is_blocked_ext (to_lower (path_ext (target net cfg same_domain base u).path))
            cfg.crawl.block_extensions
          ≡ false)
      × (same_domain ≡ true
          → same_host_or_subdomain (base_host net cfg same_domain base)
              (to_lower (net.hostname (target net cfg same_domain base u)))
            ≡ true)
      × (canonicalize net (target_text net cfg same_domain (target net cfg same_domain base u))
            cfg.crawl.strip_query
          ≡ some canon)

  -- The result is the canonical form of one of the links, with a scheme that is allowed, a path whose
  -- extension is not blocked and, where the crawl stays in its domain, a host of that domain.
  abbrev pub IsKept : Url → List Text → Text → Type 0
  IsKept base links canon =
      (raw : Text) × (u : Url) × In raw links
      × (trim_space raw ≢ [])
      × (net.parse (trim_space raw) ≡ some u)
      × HasScheme cfg.crawl.allowed_schemes (absolute net cfg same_domain base u).scheme
      × (¬ IsBlocked cfg.crawl.block_extensions
          (to_lower (path_ext (target net cfg same_domain base u).path)))
      × (same_domain ≡ true
          → IsWithin (base_host net cfg same_domain base)
              (to_lower (net.hostname (target net cfg same_domain base u))))
      × (canonicalize net (target_text net cfg same_domain (target net cfg same_domain base u))
            cfg.crawl.strip_query
          ≡ some canon)

  pub filter_links_lem :
      (base_url : Text) (base : Url) (links : List Text)
      → net.parse base_url ≡ some base
      → filter_links net cfg same_domain base_url links ≡ keep_links net cfg same_domain base links
  unfolding filter_links
  filter_links_lem base_url base links e = rw e refl
