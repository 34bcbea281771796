-- ===== src/Robots/Rules.antt =====
-- internal/robots/robots.go: the rules of robots.txt, and the delay it asks for.
use bytefetch.Prelude.{
  ℕ, ◌≤◌, ◌≡◌, ◌≢◌, refl, ap, ◌∙◌, Text, is_empty, to_lower, starts_with, true, false, not, Option,
  none, some, List, [], ◌∷◌, any, All, arith,
}
use bytefetch.Url.Net.{Url, UrlPackage}
use bytefetch.Robots.{RobotsData, Client, get_data, data_of, test_of, allowed, delay_of, delay}

delay_of-bound :
    (net : UrlPackage) (fetch : Text → Option RobotsData) (ua : Text) (d : ℕ) (c : Client)
    (o : Option (Option RobotsData × Client))
    → d ≤ (delay_of net fetch ua d c o).0
delay_of-bound net fetch ua d c none = omega arith
delay_of-bound net fetch ua d c (some (none, c')) = omega arith
delay_of-bound net fetch ua d c (some (some found, c')) = ground arith

-- The delay that `Delay` gives is never below the configured one, whatever robots.txt says.
pub delay_bound :
    (net : UrlPackage) (fetch : Text → Option RobotsData) (raw ua : Text) (default_delay : ℕ)
    (c : Client)
    → default_delay ≤ (delay net fetch raw ua default_delay c).0
unfolding delay
delay_bound net fetch raw ua default_delay c =
    delay_of-bound net fetch ua default_delay c (data_of net fetch (net.parse raw) c)

-- The rules are paths: each begins with a slash and is more than that, and a path is kept out where a
-- rule is a prefix of it.
abbrev pub HasPathRules : List Text → RobotsData → Type 0
HasPathRules rules found =
    All (λ r. (starts_with r (b'/' ∷ []) ≡ true) × (r ≢ b'/' ∷ [])) rules
    × ((path ua : Text) → found.test_agent path ua ≡ not (any (λ r. starts_with path r) rules))

no_rule :
    (c : ℕ) (s : Text) (rules : List Text)
    → c ≢ b'/'
    → All (λ r. (starts_with r (b'/' ∷ []) ≡ true) × (r ≢ b'/' ∷ [])) rules
    → any (λ r. starts_with (c ∷ s) r) rules ≡ false
no_rule c s [] ne h = refl
no_rule c s ([] ∷ rules) ne ((bad, _), h) = absurd (cc bad)
no_rule c s ((d ∷ r) ∷ rules) ne ((slash, _), h) = ground (arith, no_rule c s rules ne h)

test_of-true :
    (net : UrlPackage) (fetch : Text → Option RobotsData) (c : ℕ) (s ua : Text) (rules : List Text)
    (client : Client) (found : RobotsData) (client' : Client)
    → HasPathRules rules found
    → c ≢ b'/'
    → (test_of net fetch (c ∷ s) ua client (some (some found, client'))).0 ≡ true
test_of-true net fetch c s ua rules client found client' (slashes, tests) ne =
    tests (c ∷ s) _ ∙ ap not (no_rule c s rules ne slashes)

-- `Allowed` gives the whole URL to the package where it takes a path. So, where the rules of a site's
-- robots.txt are plain paths, other than the root alone, and a URL has a host and does not itself begin
-- with a slash, the client lets it through, whatever the rules are.
pub allowed_ignores_paths :
    (net : UrlPackage) (fetch : Text → Option RobotsData) (c : ℕ) (s ua : Text) (u : Url)
    (rules : List Text) (found : RobotsData) (client client' : Client)
    → net.parse (c ∷ s) ≡ some u
    → is_empty u.host ≡ false
    → get_data net fetch (to_lower u.host) u.scheme client ≡ (some found, client')
    → HasPathRules rules found
    → c ≢ b'/'
    → (allowed net fetch (c ∷ s) ua client).0 ≡ true
unfolding allowed
allowed_ignores_paths net fetch c s ua u rules found client client' parsed host got paths ne =
    rw (parsed, host, got) (test_of-true net fetch c s ua rules client found client' paths ne)
