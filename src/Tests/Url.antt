-- ===== src/Tests/Url.antt =====
-- Canonical forms by internal/urlutil.
use bytefetch.Prelude.{◌≡◌, ◌↔◌, refl, codes, true, false, ◌∷◌, inl}
use bytefetch.Url.Net.{Url}
use bytefetch.Url.Path.{slash, is_index, clean_path}
use bytefetch.Url.Path.Rooted.{IsCleanRooted, clean_path_rooted}
use bytefetch.Url.Canonical.{canonical_url}
use bytefetch.Url.Canonical.Idempotent.{HasPortTwice, canonical_url_idempotent_iff}
use bytefetch.Tests.Data.{http_url}

clean_path_rooted_example :
    let p = clean_path (slash ∷ codes "a/../b//c/") in
    IsCleanRooted p × (is_index p ≡ false) × (clean_path p ≡ p)
clean_path_rooted_example = clean_path_rooted (codes "a/../b//c/")

abbrev port_twice : Url
port_twice = http_url (codes "h:80:80")

canonical_url_idempotent_iff_example :
    (canonical_url true (canonical_url true port_twice) ≡ canonical_url true port_twice)
    ↔ ¬ HasPortTwice port_twice
canonical_url_idempotent_iff_example = canonical_url_idempotent_iff true port_twice (inl refl)
