-- ===== src/Robots/Shared.antt =====
-- internal/robots/robots.go: the calls of `getData` that share a client, in any order of their parts.
use bytefetch.Prelude.{◌≡◌, Text, same, Option, none, List, [], ◌∷◌, In, if◌then◌else◌}
use bytefetch.Robots.{RobotsData, Client, cached, keep_data}

-- `fetching` has the hosts of the calls that have found no entry and not yet kept what they fetch.
pub record Shared : Type 0 where
  pub client : Client
  pub fetching : List Text

-- The list without the first place of the host.
unfoldable pub without : Text → List Text → List Text
without host [] = []
without host (h ∷ hosts) = let rest = without host hosts in if same h host then hosts else h ∷ rest

-- A call that finds no entry goes on to fetch; a call that has fetched keeps what it found. A call that
-- finds an entry returns it, and changes nothing.
pub data Step : Shared → Shared → Type 0 where
  miss :
      (s : Shared) (host : Text)
      → cached host s.client.cache ≡ none
      → Step s (record s { fetching = host ∷ s.fetching })
  keep :
      (s : Shared) (host : Text) (found : Option RobotsData)
      → In host s.fetching
      → Step s
          (record { client = keep_data host found s.client; fetching = without host s.fetching })

pub data Reach (s : Shared) : Shared → Type 0 where
  here : Reach s s
  next : {t u : Shared} → Reach s t → Step t u → Reach s u
