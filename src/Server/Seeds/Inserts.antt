-- ===== src/Server/Seeds/Inserts.antt =====
-- internal/server/jobs.go: the inserts of the tasks of a new job, where no statement fails.
use bytefetch.Prelude.{
  ℕ, suc, ◌≡◌, refl, ap, ◌∙◌, inl, inr, Text, same_refl, Bool, true, List, [], ◌∷◌, ◌++◌, any,
  Bool-cases, All, arith,
}
use bytefetch.Exec.{Result, ok, pure, statement}
use bytefetch.Exec.Steps.{bind-ok}
use bytefetch.Store.Rows.{NewTask}
use bytefetch.Store.Db.{Db, has_job}
use bytefetch.Store.Tasks.{same_key, new_row, insert_task_row, insert_task_rows}
use bytefetch.Store.Finish.{quiet}

-- A task of the job has the address.
abbrev pub HasTask : ℕ → Text → Db → Type 0
HasTask job_id url db = any (same_key job_id url) db.tasks ≡ true

any-append :
    {A : Type 0} (p : A → Bool) (xs ys : List A) → any p xs ≡ true → any p (xs ++ ys) ≡ true
any-append p [] ys h = absurd (ground arith)
any-append p (x ∷ xs) ys h = ground (arith, any-append p xs ys)

pub any-append-right :
    {A : Type 0} (p : A → Bool) (xs : List A) (y : A) → p y ≡ true → any p (xs ++ y ∷ []) ≡ true
any-append-right p [] y h = rw h refl
any-append-right p (x ∷ xs) y h = ground (arith, any-append-right p xs y)

module _ (now job_id : ℕ) where
  -- One insert: the row is there, and what was there before still is.
  abbrev Added : NewTask → Db → Type 0
  Added t db =
      (db' : Db) × (insert_task_row now job_id t db ≡ (ok tt, db'))
      × (has_job job_id db' ≡ true)
      × HasTask job_id t.final_url db'
      × ((url : Text) → HasTask job_id url db → HasTask job_id url db')

  insert_task_row-Added : (t : NewTask) (db : Db) → has_job job_id db ≡ true → Added t db
  unfolding insert_task_row same_key has_job new_row
  insert_task_row-Added t db known =
      elim (Bool-cases (any (same_key job_id t.final_url) db.tasks)) [
        | inl old ↦
            (record db { next_task = suc db.next_task }, rw old refl, known, old, λ url h. h)
        | inr new ↦ (
          record db {
            next_task = suc db.next_task;
            tasks = db.tasks ++ new_row db.next_task job_id t now ∷ [];
          },
          rw (new, known) refl,
          known,
          any-append-right _ db.tasks _ (ground (arith, same_refl t.final_url)),
          λ url h. any-append _ db.tasks _ h,
        )
      ]

  -- The inserts of `InsertTasks`, one after another.
  abbrev AllAdded : List NewTask → Db → Type 0
  AllAdded ts db =
      (db' : Db) × (insert_task_rows now job_id ts (quiet db) ≡ (ok tt, quiet db'))
      × All (λ t. HasTask job_id t.final_url db') ts
      × ((url : Text) → HasTask job_id url db → HasTask job_id url db')

  pub insert_task_rows-AllAdded :
      (ts : List NewTask) (db : Db) → has_job job_id db ≡ true → AllAdded ts db
  unfolding insert_task_rows pure statement
  insert_task_rows-AllAdded [] db known = (db, refl, tt, λ url h. h)
  insert_task_rows-AllAdded (t ∷ ts) db known =
      let (db1, step, known1, here, kept) = insert_task_row-Added t db known in
      let (db2, rest, all, kept') = insert_task_rows-AllAdded ts db1 known1 in
      (
        db2,
        bind-ok (statement (insert_task_row now job_id t)) (λ _. insert_task_rows now job_id ts)
              (quiet db) (ap (λ (r : Result Unit × Db). (r.0, quiet r.1)) step)
            ∙ rest,
        (kept' t.final_url here, all),
        λ url h. kept' url (kept url h),
      )
