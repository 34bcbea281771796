-- ===== src/Store/Invariant/Inserted.antt =====
-- The insert of a task keeps the invariant.
use bytefetch.Prelude.{
  ℕ, suc, ◌≡◌, refl, Text, same_iff, false, List, [], ◌∷◌, ◌++◌, any, Bool-cases, inl, inr, All,
  All-append, All-map, AllPairs-append, All-In, All-of-In, arith,
}
use bytefetch.Store.Rows.{Job, Task, NewTask}
use bytefetch.Store.Db.{Db, has_job}
use bytefetch.Store.Tasks.{same_key, insert_task_row}
use bytefetch.Store.Invariant.Defs.{Owned, Apart, TasksValid, IsValid}

-- No row has the key of a new row that does not conflict.
not-SameKey_of_any :
    (job_id : ℕ) (url : Text) (tasks : List Task)
    → any (same_key job_id url) tasks ≡ false
    → All (λ t. ¬ ((t.job_id ≡ job_id) × (t.final_url ≡ url))) tasks
unfolding same_key
not-SameKey_of_any job_id url [] h = tt
not-SameKey_of_any job_id url (t ∷ tasks) h =
    ground (arith, same_iff t.final_url url, not-SameKey_of_any job_id url tasks)

concat-TasksValid :
    (jobs : List Job) (next : ℕ) (tasks : List Task) (t : Task)
    → TasksValid jobs next tasks
    → t.id ≡ next
    → Owned jobs t.job_id
    → All (λ u. ¬ ((u.job_id ≡ t.job_id) × (u.final_url ≡ t.final_url))) tasks
    → TasksValid jobs (suc next) (tasks ++ t ∷ [])
concat-TasksValid jobs next tasks t (apart, within) e own free = (
  AllPairs-append Apart tasks (t ∷ []) apart (tt, tt)
      (All-of-In _ tasks (λ u m.
        ((let (below, _) = All-In _ tasks within m in omega arith, All-In _ tasks free m), tt))),
  All-append _ tasks (t ∷ []) (All-map (λ u h. (omega arith, h.1)) tasks within)
      ((omega arith, own), tt),
)

pub IsValid-of_tasks :
    {db : Db} (tasks : List Task) (next : ℕ)
    → IsValid db
    → TasksValid db.jobs next tasks
    → IsValid (record db { tasks = tasks; next_task = next })
IsValid-of_tasks tasks next v h = record {
  jobs_distinct = v.jobs_distinct;
  tasks_valid = h;
  documents_valid = v.documents_valid;
  mapped_valid = v.mapped_valid;
  dedupe_distinct = v.dedupe_distinct;
  next_positive = v.next_positive;
}

moved-TasksValid :
    (jobs : List Job) (next : ℕ) (tasks : List Task)
    → TasksValid jobs next tasks
    → TasksValid jobs (suc next) tasks
moved-TasksValid jobs next tasks (apart, within) =
    (apart, All-map (λ u h. (omega arith, h.1)) tasks within)

pub insert_task_row-IsValid :
    (now job_id : ℕ) (t : NewTask) (db : Db)
    → IsValid db
    → IsValid (insert_task_row now job_id t db).1
unfolding insert_task_row
insert_task_row-IsValid now job_id t db v =
    elim (Bool-cases (any (same_key job_id t.final_url) db.tasks)) [
      | inl conflict ↦
          rw conflict
            (IsValid-of_tasks _ _ v (moved-TasksValid db.jobs db.next_task db.tasks v.tasks_valid))
      | inr fresh ↦ elim (Bool-cases (has_job job_id db)) [
        | inl own ↦
            rw (fresh, own)
              (IsValid-of_tasks _ _ v (
                concat-TasksValid db.jobs db.next_task db.tasks _ v.tasks_valid refl own
                  (not-SameKey_of_any job_id t.final_url db.tasks fresh)))
        | inr gone ↦ rw (fresh, gone) v
      ]
    ]
