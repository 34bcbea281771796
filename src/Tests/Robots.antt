-- ===== src/Tests/Robots.antt =====
-- Runs of internal/robots.
use bytefetch.Prelude.{
  ◌≡◌, refl, inl, same, Text, codes, to_lower, lower_byte, starts_with, true, false, not, Option,
  none, some, List, [], ◌∷◌, any,
}
use bytefetch.Robots.{RobotsData, Client, cached, keep_data, get_data, allowed}
use bytefetch.Robots.Shared.{Shared, Step, Reach, without}
use bytefetch.Robots.Cached.{IsKept, get_data_once, get_data_raced}
use bytefetch.Robots.Rules.{HasPathRules, allowed_ignores_paths}
use bytefetch.Tests.Data.{hosts_only, http_url}

abbrev rules : List Text
rules = codes "/private" ∷ []

abbrev private : RobotsData
private = record {
  test_agent = λ path ua. not (any (λ r. starts_with path r) rules);
  crawl_delay = λ ua. 7;
  sitemaps = [];
}

abbrev web : Text → Option RobotsData
web url = some private

abbrev unreachable : Text → Option RobotsData
unreachable url = none

abbrev client : Client
client = record { cache = []; fail_open = false }

-- The answer of one host is kept, and another host is asked and answered.
abbrev one_kept : Shared
one_kept = record {
  client = record client { cache = (codes "h", some private) ∷ [] };
  fetching = [];
}

abbrev two_kept : Shared
two_kept = record { client = keep_data (codes "g") none one_kept.client; fetching = [] }

robots : Unit {0}
unfolding cached same without
robots = tt

h_IsKept : IsKept (codes "h") (some private) one_kept
unfolding robots
h_IsKept = (refl, λ m. m)

two_kept-Reach : Reach one_kept two_kept
unfolding robots
two_kept-Reach =
    Reach.next (Reach.next Reach.here (Step.miss one_kept (codes "g") refl))
      (Step.keep (record one_kept { fetching = codes "g" ∷ [] }) (codes "g") none (inl refl))

get_data_once_example :
    IsKept (codes "h") (some private) two_kept
    × (get_data hosts_only unreachable (codes "h") (codes "https") two_kept.client
        ≡ (some private, two_kept.client))
get_data_once_example =
    get_data_once hosts_only unreachable (codes "h") (codes "https") (some private) one_kept
      two_kept h_IsKept two_kept-Reach

abbrev nothing_kept : Shared
nothing_kept = record { client = client; fetching = [] }

not_cached : cached (codes "h") nothing_kept.client.cache ≡ none
unfolding robots
not_cached = refl

get_data_raced_example :
    (u : Shared) × (v : Shared) × Reach nothing_kept u
    × Reach u v
    × (cached (codes "h") u.client.cache ≡ some (some private))
    × (cached (codes "h") v.client.cache ≡ some none)
get_data_raced_example = get_data_raced (codes "h") (some private) none nothing_kept not_cached

private-HasPathRules : HasPathRules rules private
private-HasPathRules = (((refl, λ e. cc e), tt), λ path ua. refl)

asked : Client
asked = record { cache = (codes "h", some private) ∷ []; fail_open = false }

first_answer :
    get_data hosts_only web (to_lower (codes "h")) (codes "http") client ≡ (some private, asked)
unfolding get_data cached asked to_lower lower_byte
first_answer = refl

allowed_ignores_paths_example : (allowed hosts_only web (codes "h") (codes "bot") client).0 ≡ true
allowed_ignores_paths_example =
    allowed_ignores_paths hosts_only web b'h' [] (codes "bot") (http_url (codes "h")) rules private
      client asked refl refl first_answer private-HasPathRules (λ e. cc e)
