-- ===== src/Worker/Filter.antt =====
-- internal/worker/worker.go: which links of a page are followed.
pub mod Kept
pub mod Port
use bytefetch.Prelude.{
  ℕ, Text, codes, is_empty, same, to_lower, has_suffix, trim_space, Bool, true, false, not, ◌&&◌,
  ◌||◌, Option, none, some, List, [], ◌∷◌, ◌++◌, any, ◌==◌, if◌then◌else◌,
}
use bytefetch.Config.{Config}
use bytefetch.Url.Net.{Url, UrlPackage}
use bytefetch.Url.Canonical.{trim_port, canonicalize}

-- `path.Ext`: what follows the last dot of the last element, with that dot. `found` is the suffix
-- that the part before makes out.
unfoldable pub ext_after : Text → Text → Text
ext_after found [] = found
ext_after found (c ∷ cs) =
    ext_after (if c == b'/' then [] else if c == b'.' then c ∷ cs else found) cs

abbrev pub path_ext : Text → Text
path_ext p = ext_after [] p

-- `isBlockedExt`
unfoldable pub is_blocked_ext : Text → List Text → Bool
is_blocked_ext ext blocked = not (is_empty ext) && any (λ b. same ext (to_lower b)) blocked

-- `isAllowedScheme`
unfoldable pub is_allowed_scheme : Text → List Text → Bool
is_allowed_scheme scheme allowed =
    not (is_empty scheme) && any (λ a. same (to_lower scheme) (to_lower a)) allowed

abbrev pub append_kept : Option Text → List Text → List Text
append_kept none rest = rest
append_kept (some canon) rest = canon ∷ rest

-- `sameHostOrSubdomain`
unfoldable pub same_host_or_subdomain : Text → Text → Bool
same_host_or_subdomain base_host target_host =
    if is_empty base_host || is_empty target_host
    then false
    else same base_host target_host || has_suffix target_host (codes "." ++ base_host)

-- `stripDefaultPort`, of the worker's own.
abbrev pub strip_port : Url → Text
strip_port u = trim_port u.scheme u.host

module _ (net : UrlPackage) (cfg : Config) (same_domain : Bool) where
  -- `u`, or what it is relative to the page, where it names no scheme.
  unfoldable pub absolute : Url → Url → Url
  absolute base u = if is_empty u.scheme then net.resolve_reference base u else u

  abbrev pub base_host : Url → Text
  base_host base = to_lower (strip_port base)

  -- The target of a link without its default port.
  unfoldable pub target : Url → Url → Url
  unfolding absolute
  target base u = let v = absolute base u in record v { host = strip_port v }

  unfoldable pub target_text : Url → Text
  target_text v =
      net.to_text
        (record v { raw_query = if cfg.crawl.strip_query then [] else v.raw_query; fragment = [] })

  -- The body of the loop, from where the link has been parsed; `none` where it goes on to the next.
  unfoldable pub filter_url : Url → Url → Option Text
  filter_url base u =
      let v = target base u in
      if not (is_allowed_scheme (absolute base u).scheme cfg.crawl.allowed_schemes)
      then none
      else if same_domain
          && not (same_host_or_subdomain (base_host base) (to_lower (net.hostname v)))
      then none
      else if is_blocked_ext (to_lower (path_ext v.path)) cfg.crawl.block_extensions
      then none
      else canonicalize net (target_text v) cfg.crawl.strip_query

  abbrev pub filter_parsed : Url → Option Url → Option Text
  filter_parsed base none = none
  filter_parsed base (some u) = filter_url base u

  unfoldable pub filter_link : Url → Text → Option Text
  filter_link base raw =
      if is_empty (trim_space raw) then none else filter_parsed base (net.parse (trim_space raw))

  unfoldable pub keep_links : Url → List Text → List Text
  keep_links base [] = []
  keep_links base (raw ∷ links) =
      let rest = keep_links base links in append_kept (filter_link base raw) rest

  abbrev pub links_of : Option Url → List Text → List Text
  links_of none links = []
  links_of (some base) links = keep_links base links

  -- `filterLinks`
  unfoldable pub filter_links : Text → List Text → List Text
  filter_links base_url links = links_of (net.parse base_url) links
