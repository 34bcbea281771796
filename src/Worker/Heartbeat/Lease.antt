-- ===== src/Worker/Heartbeat/Lease.antt =====
-- internal/worker/worker.go and internal/store/store.go: the lease that the heartbeat extends.
use bytefetch.Prelude.{
  ℕ, ◌+◌, ◌-◌, ◌≤◌, ◌≡◌, refl, ◌∙◌, Bool, false, some, List, [], ◌∷◌, ◌++◌, map, ◌==◌, Bool-cases,
  inl, inr, All, update_where, arith,
}
use bytefetch.Exec.{ok, ignore, update, statement, pure, ◌>>=◌}
use bytefetch.Store.Rows.{Task, TaskStatus}
use bytefetch.Store.Db.{Db}
use bytefetch.Store.Finish.{quiet}
use bytefetch.Store.Tasks.{claimable, update_task, beaten, update_task_heartbeat}
use bytefetch.Worker.Heartbeat.{HeartbeatEvent, tick, heartbeat_loop}

-- One tick with no fault.
loop-tick :
    (task_id now : ℕ) (events : List HeartbeatEvent) (db : Db)
    → heartbeat_loop task_id (tick now ∷ events) (quiet db)
      ≡ heartbeat_loop task_id events (quiet (update_task task_id (beaten now) db))
unfolding heartbeat_loop ignore update_task_heartbeat update statement ◌>>=◌
loop-tick task_id now events db = refl

loop-ticks :
    (task_id : ℕ) (beats : List ℕ) (last : ℕ) (db : Db)
    → (before : Db) × (heartbeat_loop task_id (map tick beats ++ tick last ∷ []) (quiet db)
        ≡ (ok tt, quiet (update_task task_id (beaten last) before)))
unfolding heartbeat_loop pure
loop-ticks task_id [] last db = (db, loop-tick task_id last [] db)
loop-ticks task_id (b ∷ beats) last db =
    let (before, run) = loop-ticks task_id beats last (update_task task_id (beaten b) db) in
    (before, loop-tick task_id b (map tick beats ++ tick last ∷ []) db ∙ run)

-- A row with a heartbeat at or after the threshold is not to be claimed.
not_claimable :
    (threshold last : ℕ) (locked : ℕ → Bool) (t : Task)
    → t.status ≡ TaskStatus.processing
    → t.heartbeat_at ≡ some last
    → threshold ≤ last
    → claimable threshold locked t ≡ false
unfolding claimable
not_claimable threshold last locked t processing beat fresh = ground arith

beaten_rows :
    (task_id threshold last : ℕ) (locked : ℕ → Bool) (tasks : List Task)
    → threshold ≤ last
    → All
        (λ t.
          t.id ≡ task_id → t.status ≡ TaskStatus.processing → claimable threshold locked t ≡ false)
        (update_where (λ t. t.id == task_id) (beaten last) tasks)
beaten_rows task_id threshold last locked [] fresh = tt
beaten_rows task_id threshold last locked (t ∷ tasks) fresh =
    let rest = beaten_rows task_id threshold last locked tasks fresh in
    elim (Bool-cases (t.id == task_id)) [
      | inl hit ↦ rw hit (
        (λ same_id processing.
            not_claimable threshold last locked (beaten last t) processing refl fresh),
        rest,
      )
      | inr miss ↦ rw miss ((λ same_id processing. absurd (ground arith)), rest)
    ]

-- With no statement failing, after any number of heartbeats, no worker may claim a row of the task
-- that is being processed until the lease has run from the last of them, whatever rows are locked.
pub heartbeat_keeps_lease :
    (task_id : ℕ) (beats : List ℕ) (last : ℕ) (db : Db)
    → (after : Db) × (heartbeat_loop task_id (map tick beats ++ tick last ∷ []) (quiet db)
        ≡ (ok tt, quiet after))
      × ((now lease_timeout : ℕ) (locked : ℕ → Bool)
          → now ≤ last + lease_timeout
          → All
              (λ t.
                t.id ≡ task_id
                → t.status ≡ TaskStatus.processing
                → claimable (now - lease_timeout) locked t ≡ false)
              after.tasks)
unfolding update_task
heartbeat_keeps_lease task_id beats last db =
    let (before, run) = loop-ticks task_id beats last db in
    (
      update_task task_id (beaten last) before,
      run,
      λ now lease_timeout locked early.
          beaten_rows task_id (now - lease_timeout) last locked before.tasks (omega arith),
    )
