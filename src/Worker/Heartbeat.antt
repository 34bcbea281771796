-- ===== src/Worker/Heartbeat.antt =====
-- internal/worker/worker.go: the heartbeat beside the work on a task.
pub mod Lease
use bytefetch.Prelude.{
  ℕ, zero, suc, ◌+◌, ◌-◌, ◌*◌, ◌/◌, ◌^◌, Bool, List, [], ◌∷◌, ltb, ◌==◌, if◌then◌else◌, min,
}
use bytefetch.Exec.{Exec, pure, ignore, ◌>>=◌, ◌>>◌}
use bytefetch.Store.Tasks.{update_task_heartbeat}

-- What the loop waits for: a tick at a time, the end of the work, or the end of the context.
pub data HeartbeatEvent : Type 0 where
  tick : ℕ → HeartbeatEvent
  work_done : HeartbeatEvent
  context_ended : HeartbeatEvent

-- `heartbeatLoop`
unfoldable pub heartbeat_loop : ℕ → List HeartbeatEvent → Exec Unit
heartbeat_loop task_id [] = pure tt
heartbeat_loop task_id (work_done ∷ events) = pure tt
heartbeat_loop task_id (context_ended ∷ events) = pure tt
heartbeat_loop task_id (tick now ∷ events) =
    ignore (update_task_heartbeat now task_id) >> heartbeat_loop task_id events
