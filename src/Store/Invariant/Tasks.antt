-- ===== src/Store/Invariant/Tasks.antt =====
-- The statements over `crawl_tasks` keep the invariant.
use bytefetch.Prelude.{
  ℕ, ◌<◌, ◌≡◌, refl, sym, subst, ◌∙◌, Text, same, same_iff, Bool, true, not, ◌&&◌, Option, none,
  some, List, [], ◌∷◌, update_where, ◌==◌, Bool-cases, ◌⊎◌, inl, inr, if◌then◌else◌, All, In,
  AllPairs-map, All-update_where, All-In, arith,
}
use bytefetch.Exec.Keeps.{Keeps, pure-Keeps, statement-Keeps, update-Keeps, bind-Keeps}
use bytefetch.Store.Rows.{Job, Task, NewTask}
use bytefetch.Store.Db.{Db}
use bytefetch.Store.Tasks.{
  insert_task_rows, insert_tasks, claim, claimed, dequeue_task, url_is_free, update_final_url_rows,
  update_task_final_url, update_task, update_task_heartbeat, complete_task, fail_task, retry_task,
}
use bytefetch.Store.Invariant.Defs.{Owned, Apart, TasksValid, IsValid}
use bytefetch.Store.Invariant.Inserted.{IsValid-of_tasks, insert_task_row-IsValid}

abbrev KeepsKey : (Task → Task) → Type 0
KeepsKey f =
    (t : Task) → ((f t).id ≡ t.id) × ((f t).job_id ≡ t.job_id) × ((f t).final_url ≡ t.final_url)

Apart-cast :
    (t u t' u' : Task)
    → (t'.id ≡ t.id) × (t'.job_id ≡ t.job_id) × (t'.final_url ≡ t.final_url)
    → (u'.id ≡ u.id) × (u'.job_id ≡ u.job_id) × (u'.final_url ≡ u.final_url)
    → Apart t u
    → Apart t' u'
Apart-cast t u t' u' h k (lt, ne) =
    (omega arith, λ e. ne (sym h.1 ∙ e.0 ∙ k.1, sym h.2 ∙ e.1 ∙ k.2))

choose-KeepsKey :
    (p : Task → Bool) (f : Task → Task) → KeepsKey f → KeepsKey (λ t. if p t then f t else t)
choose-KeepsKey p f k t = elim (Bool-cases (p t)) [
  | inl e ↦ rw e (k t)
  | inr e ↦ rw e (refl, refl, refl)
]

-- An update that leaves id, job and final URL alone keeps the tasks valid.
update-TasksValid :
    (jobs : List Job) (next : ℕ) (p : Task → Bool) (f : Task → Task)
    → KeepsKey f
    → (tasks : List Task) → TasksValid jobs next tasks
    → TasksValid jobs next (update_where p f tasks)
update-TasksValid jobs next p f k tasks (apart, within) =
    let c = choose-KeepsKey p f k in
    (
      AllPairs-map Apart _ tasks
          (λ t u _ _ h.
            Apart-cast t u (if p t then f t else t) (if p u then f u else u) (c t) (c u) h)
          apart,
      All-update_where _ p f
          (λ t h. (subst (λ i. i < next) (sym (k t).0) h.0, subst (Owned jobs) (sym (k t).1) h.1))
          tasks within,
    )

update_task-IsValid :
    (task_id : ℕ) (f : Task → Task)
    → KeepsKey f
    → (db : Db) → IsValid db
    → IsValid (update_task task_id f db)
unfolding update_task
update_task-IsValid task_id f k db v =
    IsValid-of_tasks _ db.next_task v
      (update-TasksValid db.jobs db.next_task _ f k db.tasks v.tasks_valid)

claim-IsValid : (now : ℕ) (db : Db) (t : Option Task) → IsValid db → IsValid (claim now db t).1
unfolding claim
claim-IsValid now db none v = v
claim-IsValid now db (some t) v = IsValid-of_tasks _ db.next_task v (
    update-TasksValid db.jobs db.next_task _ (claimed now) (λ t. (refl, refl, refl)) db.tasks
      v.tasks_valid)

-- What the update of a final URL requires of the other rows.
url_is_free-All :
    (url : Text) (tasks : List Task) (target : Task)
    → url_is_free url tasks target ≡ true
    → All (λ u. (u.job_id ≡ target.job_id) → (u.final_url ≡ url) → u.id ≡ target.id) tasks
unfolding url_is_free
url_is_free-All url [] target h = tt
url_is_free-All url (u ∷ tasks) target h =
    ground (arith, same_iff u.final_url url, url_is_free-All url tasks target)

abbrev retargeted : ℕ → Text → Task → Task
retargeted now url t = record t { final_url = url; updated_at = now }

module _ (now task_id : ℕ) (url : Text) (tasks : List Task) where
  abbrev moves : Task → Bool
  moves t = t.id == task_id && not (same t.final_url url) && url_is_free url tasks t

  abbrev moved : Task → Task
  moved t = if moves t then retargeted now url t else t

  moved_cases :
      (t : Task)
      → (moved t ≡ t)
        ⊎ ((moved t ≡ retargeted now url t) × (url_is_free url tasks t ≡ true) × (t.id ≡ task_id))
  moved_cases t = ground arith

  moved-Apart : (t u : Task) → In t tasks → In u tasks → Apart t u → Apart (moved t) (moved u)
  moved-Apart t u m n (lt, ne) = elim (moved_cases t) [
    | inl e ↦ elim (moved_cases u) [
      | inl f ↦ rw (e, f) (lt, ne)
      | inr (f, free, at_u) ↦
          rw (e, f)
            (
              lt,
              λ (j, url_eq). absurd (
                  let same_id = All-In _ tasks (url_is_free-All url tasks u free) m j url_eq in
                  omega arith),
            )
    ]
    | inr (e, free, at_t) ↦ elim (moved_cases u) [
      | inl f ↦
          rw (e, f)
            (
              lt,
              λ (j, url_eq). absurd (
                  let same_id =
                    All-In _ tasks (url_is_free-All url tasks t free) n (sym j) (sym url_eq) in
                  omega arith),
            )
      | inr (f, _, at_u) ↦ absurd (omega arith)
    ]
  ]

  update_final_url_rows-TasksValid :
      (jobs : List Job) (next : ℕ)
      → TasksValid jobs next tasks
      → TasksValid jobs next (update_final_url_rows now task_id url tasks)
  unfolding update_final_url_rows
  update_final_url_rows-TasksValid jobs next (apart, within) = (
    AllPairs-map Apart moved tasks moved-Apart apart,
    All-update_where _ moves (retargeted now url) (λ t h. h) tasks within,
  )

-- `UpdateTaskFinalURL` keeps the invariant: it gives no task the URL of another task of its job.
pub update_task_final_url-IsValid :
    (now task_id : ℕ) (url : Text) → Keeps IsValid (update_task_final_url now task_id url)
unfolding update_task_final_url
update_task_final_url-IsValid now task_id url = update-Keeps _ (λ db v.
    IsValid-of_tasks _ db.next_task v (
      update_final_url_rows-TasksValid now task_id url db.tasks db.jobs db.next_task v.tasks_valid))

-- `DequeueTask` keeps the invariant, whatever rows are locked.
pub dequeue_task-IsValid :
    (now lease : ℕ) (locked : ℕ → Bool) → Keeps IsValid (dequeue_task now lease locked)
unfolding dequeue_task
dequeue_task-IsValid now lease locked = statement-Keeps _ (λ db v. claim-IsValid now db _ v)

pub update_task_heartbeat-IsValid :
    (now task_id : ℕ) → Keeps IsValid (update_task_heartbeat now task_id)
unfolding update_task_heartbeat
update_task_heartbeat-IsValid now task_id =
    update-Keeps _ (update_task-IsValid task_id _ (λ t. (refl, refl, refl)))

pub complete_task-IsValid : (now task_id : ℕ) → Keeps IsValid (complete_task now task_id)
unfolding complete_task
complete_task-IsValid now task_id =
    update-Keeps _ (update_task-IsValid task_id _ (λ t. (refl, refl, refl)))

pub fail_task-IsValid :
    (now task_id : ℕ) (reason : Text) → Keeps IsValid (fail_task now task_id reason)
unfolding fail_task
fail_task-IsValid now task_id reason =
    update-Keeps _ (update_task-IsValid task_id _ (λ t. (refl, refl, refl)))

pub retry_task-IsValid : (now task_id : ℕ) (msg : Text) → Keeps IsValid (retry_task now task_id msg)
unfolding retry_task
retry_task-IsValid now task_id msg =
    update-Keeps _ (update_task-IsValid task_id _ (λ t. (refl, refl, refl)))

insert_task_rows-IsValid :
    (now job_id : ℕ) (ts : List NewTask) → Keeps IsValid (insert_task_rows now job_id ts)
unfolding insert_task_rows
insert_task_rows-IsValid now job_id [] = pure-Keeps tt
insert_task_rows-IsValid now job_id (t ∷ ts) =
    bind-Keeps _ _ (statement-Keeps _ (insert_task_row-IsValid now job_id t))
      (λ _. insert_task_rows-IsValid now job_id ts)

-- Whatever fails on the way, `InsertTasks` keeps the invariant: no two tasks of a job get one URL,
-- ids stay in order, and each task has its job.
pub insert_tasks-IsValid :
    (now job_id : ℕ) (ts : List NewTask) → Keeps IsValid (insert_tasks now job_id ts)
unfolding insert_tasks
insert_tasks-IsValid now job_id ts =
    bind-Keeps _ _ (update-Keeps _ (λ db v. v)) (λ _. insert_task_rows-IsValid now job_id ts)
