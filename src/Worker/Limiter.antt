-- ===== src/Worker/Limiter.antt =====
-- internal/worker/limiter.go and host.go: the slots and the rate of each host. A channel is the number
-- of tokens in it. `Wait` of golang.org/x/time/rate is an argument: whether it fails.
pub mod Slots
pub mod Fair
pub mod Acquire
use bytefetch.Prelude.{
  ℕ, suc, ◌+◌, ◌-◌, Text, codes, is_empty, same, has, Bool, true, false, ◌&&◌, Option, none, some,
  List, [], ◌∷◌, ltb, if◌then◌else◌,
}
use bytefetch.Url.Net.{UrlPackage}

abbrev pub Slots : Type 0
Slots = List (Text × ℕ)

-- The tokens in the channel of a host, and none where it has no channel.
unfoldable pub held : Text → Slots → ℕ
held host [] = 0
held host ((h, n) ∷ slots) = let rest = held host slots in if same h host then n else rest

unfoldable pub has_channel : Text → Slots → Bool
has_channel host [] = false
has_channel host ((h, n) ∷ slots) =
    let rest = has_channel host slots in if same h host then true else rest

unfoldable pub set_held : Text → ℕ → Slots → Slots
set_held host n [] = (host, n) ∷ []
set_held host n ((h, k) ∷ slots) =
    let rest = set_held host n slots in if same h host then (host, n) ∷ slots else (h, k) ∷ rest

-- `hostLimiter`; `rate_limit` has the hosts for which there is a limiter.
pub record HostLimiter : Type 0 where
  pub max_conc : ℕ
  pub rps : ℕ
  pub conc : Slots
  pub rate_limit : List Text

unfoldable pub new_host_limiter : ℕ → ℕ → HostLimiter
new_host_limiter max_conc rps = record {
  max_conc = max_conc;
  rps = rps;
  conc = [];
  rate_limit = [];
}

-- `extractHost`, and `hostFromURL`, which is the same.
unfoldable pub extract_host : UrlPackage → Text → Text
extract_host net raw = elim (net.parse raw) [ none ↦ [] | some u ↦ net.hostname u ]

unfoldable pub host_or_default : Text → Text
host_or_default host = if is_empty host then codes "default" else host

-- `getConc`
unfoldable pub get_conc : Text → HostLimiter → HostLimiter
get_conc host h = if has_channel host h.conc then h else record h { conc = set_held host 0 h.conc }

-- `getLimiter`
unfoldable pub get_limiter : Text → HostLimiter → HostLimiter
get_limiter host h =
    if has h.rate_limit host then h else record h { rate_limit = host ∷ h.rate_limit }

-- `releaseConc`: a receive that does not block.
unfoldable pub release_conc : Text → HostLimiter → HostLimiter
release_conc host h =
    if has_channel host h.conc
    then record h { conc = set_held host (held host h.conc - 1) h.conc }
    else h

-- The send on the host's channel: `none` where the channel is full, and the call waits.
unfoldable pub send : Text → HostLimiter → Option HostLimiter
send host h =
    if ltb (held host h.conc) h.max_conc
    then some (record h { conc = set_held host (suc (held host h.conc)) h.conc })
    else none

-- The first part of `acquire`, up to the slot; `none` where it waits.
unfoldable pub enter : Text → HostLimiter → Option HostLimiter
enter host h = if ltb 0 h.max_conc then send host (get_conc host h) else some h

-- The function that `acquire` returns.
unfoldable pub release : Text → HostLimiter → HostLimiter
release host h = if ltb 0 h.max_conc then release_conc host h else h

-- The second part of `acquire`: whether the host may go on.
unfoldable pub pass_rate : Bool → Text → HostLimiter → Bool × HostLimiter
unfolding release
pass_rate wait_fails host h =
    if ltb 0 h.rps
    then (if wait_fails
        then (false, release host (get_limiter host h))
        else (true, get_limiter host h))
    else (true, h)

-- How a call of `acquire` stands: it holds the host, it waits for a slot, or it has failed.
pub data Acquired : Type 0 where
  entered : Text → Acquired
  waiting : Text → Acquired
  refused : Acquired

abbrev pub after_rate : Text → Bool × HostLimiter → Acquired × HostLimiter
after_rate host (true, h) = (entered host, h)
after_rate host (false, h) = (refused, h)

abbrev pub after_send : Bool → Text → HostLimiter → Option HostLimiter → Acquired × HostLimiter
after_send wait_fails host before none = (waiting host, before)
after_send wait_fails host before (some h) = after_rate host (pass_rate wait_fails host h)

-- `acquire`, with nobody in between: `done` where `select` takes the case of a context that is done.
unfoldable pub acquire : UrlPackage → Bool → Bool → Text → HostLimiter → Acquired × HostLimiter
unfolding enter get_conc
acquire net done wait_fails raw h =
    let host = host_or_default (extract_host net raw) in
    let opened = if ltb 0 h.max_conc then get_conc host h else h in
    if ltb 0 h.max_conc && done
    then (refused, opened)
    else after_send wait_fails host opened (enter host h)
