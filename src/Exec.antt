-- ===== src/Exec.antt =====
-- Calls that reach the database: each takes the database and what its connection will do, and
-- returns a result or an error with the new database. A statement fails where `faults` says so,
-- and then changes nothing. `BeginTx`, `Commit` and `Rollback` of database/sql are `in_tx`.
pub mod Keeps
pub mod Steps
use bytefetch.Prelude.{Text, codes, List, [], ◌∷◌, Bool, true, false, ◌≡◌, ◌++◌}
use bytefetch.Store.Db.{Db}

-- The errors of the program that some caller tells apart, or whose text reaches a task's row.
pub data Error : Type 0 where
  sql_error : Error
  no_rows : Error
  no_such_job : Error
  pending_tasks : Error
  seed_already_processed : Error
  deadline_exceeded : Error
  max_duration_exceeded : Error
  unsupported_job_type : Error
  blocked_by_robots : Error
  too_large : Error
  context_done : Error
  fetch_failed : Text → Error
  extract_failed : Text → Error
  unsupported_format : Text → Error

pub data Result (A : Type 0) : Type 0 where
  ok : A → Result A
  err : Error → Result A

-- `faults` holds, for each statement to come, whether its connection fails; none fails after its
-- end.
pub record World : Type 0 where
  pub db : Db
  pub faults : List Bool

abbrev pub Exec : Type 0 → Type 0
Exec A = World → Result A × World

module _ {A : Type 0} where
  unfoldable pub pure : A → Exec A
  pure a w = (ok a, w)

  unfoldable pub raise : Error → Exec A
  raise e w = (err e, w)

  unfoldable pub run_on : (Db → Result A × Db) → Db → List Bool → Result A × World
  run_on f db [] = let (r, db') = f db in (r, record { db = db'; faults = [] })
  run_on f db (true ∷ faults) = (err sql_error, record { db = db; faults = faults })
  run_on f db (false ∷ faults) = let (r, db') = f db in (r, record { db = db'; faults = faults })

  -- One SQL statement.
  unfoldable pub statement : (Db → Result A × Db) → Exec A
  unfolding run_on
  statement f w = run_on f w.db w.faults

  -- Go's `_ = call(…)`: the error is dropped, and what was done stays done.
  unfoldable pub ignore : Exec A → Exec Unit
  ignore m w = let (r, w') = m w in (ok tt, w')

module _ {A B : Type 0} where
  -- `if err != nil { return err }`
  abbrev pub on_ok : (A → Exec B) → Result A → World → Result B × World
  on_ok f (ok a) w = f a w
  on_ok f (err e) w = (err e, w)

  infixl 5 ◌>>=◌ ◌>>◌
  unfoldable pub ◌>>=◌ : Exec A → (A → Exec B) → Exec B
  unfolding pure raise
  ◌>>=◌ m f w = let (r, w') = m w in on_ok f r w'

  abbrev pub ◌>>◌ : Exec A → Exec B → Exec B
  m >> k = m >>= λ _. k

-- A query that only reads, and an update with no result.
unfoldable pub query : {A : Type 0} → (Db → A) → Exec A
unfolding statement
query f = statement (λ db. (ok (f db), db))

unfoldable pub update : (Db → Db) → Exec Unit
unfolding statement
update f = statement (λ db. (ok tt, f db))

-- `BeginTx` and `Commit`: they may fail, and change nothing.
unfoldable pub ping : Exec Unit
unfolding query
ping = query (λ db. tt)

module _ {A : Type 0} where
  commit : Db → A → Result Unit × World → Result A × World
  commit saved a (ok _, w) = (ok a, w)
  commit saved a (err e, w) = (err e, record w { db = saved })

  -- The end of a transaction that began at `saved`: an error rolls back, and so does a commit that
  -- fails.
  end_tx : Db → Result A × World → Result A × World
  end_tx saved (err e, w) = (err e, record w { db = saved })
  end_tx saved (ok a, w) = commit saved a (ping w)

  begin_tx : Exec A → Result Unit × World → Result A × World
  begin_tx body (ok _, w) = end_tx w.db (body w)
  begin_tx body (err e, w) = (err e, w)

  unfoldable pub in_tx : Exec A → Exec A
  unfolding begin_tx end_tx commit ping
  in_tx body w = begin_tx body (ping w)
