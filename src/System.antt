-- ===== src/System.antt =====
-- The parts of the program at work on one database: the API (internal/server), the workers
-- (internal/worker) with their heartbeats, and the sweep (internal/cleanup). Their calls follow each
-- other in any order, with any statement of them failing.
pub mod Reachable
use bytefetch.Prelude.{ℕ, Text, Bool, List}
use bytefetch.Exec.{World, Exec}
use bytefetch.Store.Db.{Db, empty_db}
use bytefetch.Store.Tasks.{update_task_heartbeat}
use bytefetch.Worker.Pages.{Answer}
use bytefetch.Worker.Process.{run_worker_round}
use bytefetch.Cleanup.{sweep}
use bytefetch.Server.Routes.{HandlerDeps, Request, handle}

-- A request to the API; a round of a worker, with what the page and the clock say meanwhile; a
-- heartbeat; a sweep.
pub data Event : Type 0 where
  request : ℕ → ℕ → ℕ → Request → Event
  worker_round : Answer → ℕ → ℕ → ℕ → (ℕ → Bool) → Event
  heartbeat : ℕ → ℕ → Event
  swept : ℕ → Event

module _ (deps : HandlerDeps) where
  -- The database after the event.
  unfoldable pub after : Event → World → Db
  after (request rounds now new_id r) w = (handle deps rounds now new_id r w).1.db
  after (worker_round answer now later finish locked) w =
      (run_worker_round deps.net deps.config answer now later finish locked w).1.db
  after (heartbeat now task_id) w = (update_task_heartbeat now task_id w).1.db
  after (swept now) w = (sweep now w).1.db

  -- The databases that the program can leave behind.
  pub data Reach : Db → Type 0 where
    begin : Reach empty_db
    step :
        {db : Db}
        → Reach db
        → (e : Event) (faults : List Bool) → Reach (after e (record { db = db; faults = faults }))
