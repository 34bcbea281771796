-- ===== src/Url/Canonical.antt =====
-- `Canonicalize` of internal/urlutil/urlutil.go.
pub mod Idempotent
use bytefetch.Prelude.{
  ℕ, Text, codes, same, to_lower, trim_suffix, Bool, Option, none, some, List, [], ◌∷◌,
  if◌then◌else◌,
}
use bytefetch.Url.Net.{Url, UrlPackage}
use bytefetch.Url.Path.{clean_path}

-- The port that goes with the scheme is taken off the host.
unfoldable pub trim_port : Text → Text → Text
trim_port scheme host =
    if same (to_lower scheme) (codes "http")
    then trim_suffix host (codes ":80")
    else if same (to_lower scheme) (codes "https")
    then trim_suffix host (codes ":443")
    else host

-- `stripDefaultPort`
unfoldable pub strip_default_port : Url → Text
unfolding trim_port
strip_default_port u = to_lower (trim_port u.scheme u.host)

-- What `Canonicalize` does to the parsed URL.
unfoldable pub canonical_url : Bool → Url → Url
unfolding strip_default_port
canonical_url strip_query u =
    let lowered : Url = record u { scheme = to_lower u.scheme } in
    record lowered {
      host = strip_default_port lowered;
      fragment = [];
      raw_query = if strip_query then [] else u.raw_query;
      path = clean_path u.path;
    }

unfoldable pub canonicalize : UrlPackage → Text → Bool → Option Text
canonicalize net raw strip_query = elim (net.parse raw) [
  | none ↦ none
  | some u ↦ some (net.to_text (canonical_url strip_query u))
]
