-- ===== src/Cleanup.antt =====
-- internal/cleanup/cleanup.go: what a sweep removes, and the loop of `Run`. The log and the
-- counters are left out.
pub mod Sweep
use bytefetch.Prelude.{ℕ, Bool, not, ◌||◌, List, [], ◌∷◌, filter, any, ◌==◌}
use bytefetch.Exec.{Exec, context_done, raise, ignore, update, ping, ◌>>=◌, ◌>>◌}
use bytefetch.Store.Rows.{Job}
use bytefetch.Store.Db.{Db, has_job}
use bytefetch.Store.Jobs.{past, cancel_expired_jobs}

-- The jobs of the table expression `expired_jobs`.
unfoldable pub is_over : ℕ → Job → Bool
unfolding past
is_over now j = past now j.expires_at || past now j.deadline

-- `DELETE FROM jobs`, which the foreign keys pass on (`ON DELETE CASCADE`).
unfoldable pub delete_jobs : (Job → Bool) → Db → Db
unfolding has_job
delete_jobs gone db =
    let kept : Db = record db { jobs = filter (λ j. not (gone j)) db.jobs } in
    record kept {
      tasks = filter (λ t. has_job t.job_id kept) db.tasks;
      documents = filter (λ r. has_job r.job_id kept) db.documents;
      mapped = filter (λ r. has_job r.job_id kept) db.mapped;
    }

unfoldable pub delete_over_jobs : ℕ → Exec Unit
unfolding delete_jobs is_over
delete_over_jobs now = update (delete_jobs (is_over now))

-- `sweep`: the connection, and the two statements of `internal/cleanup`.
unfoldable pub sweep : ℕ → Exec Unit
sweep now = do ping; cancel_expired_jobs now; delete_over_jobs now

-- `Run`: a sweep at once, and one at each tick until the context is done, whose error it returns.
-- What a sweep fails with is only logged.
unfoldable pub run : ℕ → List ℕ → Exec Unit
run now [] = ignore (sweep now) >> raise context_done
run now (tick ∷ ticks) = ignore (sweep now) >> run tick ticks
