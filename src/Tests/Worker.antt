-- ===== src/Tests/Worker.antt =====
-- Runs of internal/worker: links, and the limiter.
use bytefetch.Prelude.{
  ℕ, ◌+◌, ◌-◌, ◌<◌, ◌≤◌, ◌≡◌, ◌≢◌, ◌↔◌, refl, Text, codes, true, false, not, none, List, [], ◌∷◌,
  map, filter, length, In, All, AllPairs, inl, to_lower, lower_byte, same, trim_suffix, has_suffix,
  arith,
}
use bytefetch.Exec.{ok, pure}
use bytefetch.Store.Rows.{NewTask}
use bytefetch.Store.Finish.{quiet}
use bytefetch.Url.Canonical.{trim_port}
use bytefetch.Worker.Links.{Planner, unique_strings, link_task, build_link_tasks}
use bytefetch.Worker.Links.Limit.{within_limit}
use bytefetch.Worker.Links.Unique.{unique_strings_lem}
use bytefetch.Worker.Links.Plan.{
  Answers, skips, IsLinkTask, build_link_tasks_lem, build_link_tasks_sound,
}
use bytefetch.Worker.Filter.{filter_links, base_host, target}
use bytefetch.Url.Net.{Url}
use bytefetch.Worker.Filter.Port.{NoColon, LeadsToName, filter_links_port}
use bytefetch.Worker.Limiter.{
  HostLimiter, new_host_limiter, held, has_channel, set_held, get_conc, send, enter, pass_rate,
}
use bytefetch.Worker.Limiter.Fair.{
  System, Step, Reach, start, on_host, without, Reach-bound, Reach-no_loss,
}
use bytefetch.Worker.Limiter.{acquire}
use bytefetch.Worker.Limiter.Acquire.{Leads, acquire-Leads}
use bytefetch.Tests.Data.{sample, config, hosts_only, http_url, before_colon}

unique_strings_lem_example :
    let out = unique_strings (codes "a" ∷ [] ∷ codes "a" ∷ []) in
    ((a : Text) → In a out ↔ (In a (codes "a" ∷ [] ∷ codes "a" ∷ []) × (a ≢ [])))
    × AllPairs ◌≢◌ out
    × (unique_strings out ≡ out)
unique_strings_lem_example = unique_strings_lem (codes "a" ∷ [] ∷ codes "a" ∷ [])

abbrev some_links : List Text
some_links = codes "b" ∷ codes "a" ∷ codes "b" ∷ []

-- A planner that has seen nothing and counts no tasks.
abbrev empty_planner : Planner
unfolding pure
empty_planner = record { has_seen_canonical = λ url. pure false; task_count = λ id. pure 0 }

empty_planner-Answers : Answers empty_planner (λ url. false) (λ id. 0) (quiet sample)
unfolding pure
empty_planner-Answers = record { has_seen = λ url. refl; counted = λ id. refl }

build_link_tasks_lem_example :
    build_link_tasks empty_planner config 1 some_links 1 (quiet sample) ≡ (
      ok (
          within_limit config.job_defaults.max_tasks 0 (
            map
              (link_task 1)
              (filter (λ l. not (skips config (λ url. false) l)) (unique_strings some_links)))),
      quiet sample,
    )
build_link_tasks_lem_example =
    build_link_tasks_lem empty_planner config (λ url. false) (λ id. 0) (quiet sample)
      empty_planner-Answers 1 some_links 1

abbrev planned : List NewTask
planned = within_limit config.job_defaults.max_tasks 0 (
    map (link_task 1)
      (filter (λ l. not (skips config (λ url. false) l)) (unique_strings some_links)))

build_link_tasks_sound_example :
    All (IsLinkTask config (λ url. false) some_links 1) planned
    × AllPairs (λ t u. t.final_url ≢ u.final_url) planned
    × (0 < config.job_defaults.max_tasks → length planned ≤ config.job_defaults.max_tasks - 0)
build_link_tasks_sound_example =
    build_link_tasks_sound empty_planner config (λ url. false) (λ id. 0) (quiet sample)
      empty_planner-Answers 1 some_links 1 planned (quiet sample) build_link_tasks_lem_example

before_colon-NoColon : (s : Text) → NoColon (before_colon s)
before_colon-NoColon [] = tt
before_colon-NoColon (c ∷ s) = ground (arith, before_colon-NoColon s)

port_8080 : ¬ NoColon (base_host hosts_only config true (http_url (codes "h:8080")))
unfolding trim_port to_lower lower_byte same trim_suffix has_suffix
port_8080 (h, rest) = rest.0 refl

some_names : All (LeadsToName hosts_only config (http_url (codes "h:8080"))) some_links
some_names =
    let name = λ (u : Url).
      before_colon-NoColon (target hosts_only config true (http_url (codes "h:8080")) u).host in
    ((λ u parsed. name u), ((λ u parsed. name u), ((λ u parsed. name u), tt)))

filter_links_port_example : filter_links hosts_only config true (codes "h:8080") some_links ≡ []
filter_links_port_example =
    filter_links_port hosts_only config (codes "h:8080") (http_url (codes "h:8080")) some_links
      some_names refl port_8080

abbrev host : Text
host = codes "a"

-- One worker has passed, with room for one.
abbrev busy : HostLimiter
busy = record (new_host_limiter 1 0) { conc = (host, 1) ∷ [] }

abbrev one_fetch : System
one_fetch = record { limiter = busy; waiting = []; fetching = host ∷ []; sitemaps = [] }

limiter : Unit {0}
unfolding new_host_limiter held has_channel set_held get_conc send enter pass_rate without same
limiter = tt

one_fetch-Reach : Reach (start 1 0) one_fetch
unfolding limiter
one_fetch-Reach = Reach.next (Reach.next Reach.here (Step.take_slot (start 1 0) host busy refl)) (
    Step.go_on (record { limiter = busy; waiting = host ∷ []; fetching = []; sitemaps = [] }) false
      host busy (inl refl) refl)

Reach-bound_example :
    (on_host host one_fetch.fetching ≤ 1)
    × ((n : ℕ)
        → (t : System) × Reach one_fetch t
          × (t.fetching ≡ one_fetch.fetching)
          × (n ≤ on_host host t.sitemaps))
Reach-bound_example = Reach-bound 1 0 one_fetch host (omega arith) one_fetch-Reach

full : enter host one_fetch.limiter ≡ none
unfolding limiter
full = refl

Reach-no_loss_example : on_host host one_fetch.waiting + on_host host one_fetch.fetching ≡ 1
Reach-no_loss_example = Reach-no_loss 1 0 one_fetch host (omega arith) one_fetch-Reach full

acquire-Leads_example : Leads (start 1 0) (acquire hosts_only false false host (start 1 0).limiter)
acquire-Leads_example = acquire-Leads hosts_only false false host (start 1 0)
