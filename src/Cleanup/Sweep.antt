-- ===== src/Cleanup/Sweep.antt =====
-- What a sweep leaves.
use bytefetch.Prelude.{
  ℕ, ◌<◌, ◌≡◌, ◌↔◌, ◌⊎◌, refl, sym, ap, ◌∙◌, inl, inr, Bool, true, not, Option, none, some, List,
  [], ◌∷◌, filter, any, ◌==◌, Bool-cases, filter-In, In-filter, In, AllPairs-filter, All-of-In,
  All-In, arith,
}
use bytefetch.Exec.{ok, ◌>>=◌, update, ping, query, statement}
use bytefetch.Exec.Keeps.{Keeps, keeps_rules, update-Keeps}
use bytefetch.Store.Rows.{Job, Task, DocumentRow, MappedRow}
use bytefetch.Store.Db.{Db, has_job}
use bytefetch.Store.Jobs.{past, is_settled, cancel_expired_rows, cancel_expired_jobs}
use bytefetch.Store.Invariant.{IsValid}
use bytefetch.Store.Invariant.Jobs.{cancel_expired_jobs-IsValid}
use bytefetch.Store.Finish.{quiet}
use bytefetch.Cleanup.{is_over, delete_jobs, delete_over_jobs, sweep}

delete_jobs-IsValid : (gone : Job → Bool) (db : Db) → IsValid db → IsValid (delete_jobs gone db)
unfolding delete_jobs
delete_jobs-IsValid gone db v =
    let kept : Db = record db { jobs = filter (λ j. not (gone j)) db.jobs } in
    record {
      jobs_distinct = AllPairs-filter _ _ db.jobs v.jobs_distinct;
      tasks_valid = (
        AllPairs-filter _ _ db.tasks v.tasks_valid.0,
        All-of-In _ _ λ t m.
            let (here, owned) = filter-In (λ u. has_job u.job_id kept) db.tasks m in
            ((All-In _ db.tasks v.tasks_valid.1 here).0, owned),
      );
      documents_valid = (
        AllPairs-filter _ _ db.documents v.documents_valid.0,
        All-of-In _ _ λ r m.
            let (here, owned) = filter-In (λ u. has_job u.job_id kept) db.documents m in
            let (positive, below, _) = All-In _ db.documents v.documents_valid.1 here in
            (positive, below, owned),
      );
      mapped_valid = (
        AllPairs-filter _ _ db.mapped v.mapped_valid.0,
        All-of-In _ _ λ r m.
            let (here, owned) = filter-In (λ u. has_job u.job_id kept) db.mapped m in
            let (positive, below, _) = All-In _ db.mapped v.mapped_valid.1 here in
            (positive, below, owned),
      );
      dedupe_distinct = v.dedupe_distinct;
      next_positive = v.next_positive;
    }

-- A sweep keeps the invariant of the database, also where its second statement fails: no task,
-- document or link outlives its job.
pub sweep-IsValid : (now : ℕ) → Keeps IsValid (sweep now)
unfolding sweep ping delete_over_jobs
sweep-IsValid now =
    search (keeps_rules, cancel_expired_jobs-IsValid, update-Keeps, delete_jobs-IsValid)

-- The jobs that a sweep cancels are among those that it deletes.
cancelled_are_over :
    (now : ℕ) (jobs : List Job)
    → filter (λ j. not (is_over now j)) (cancel_expired_rows now jobs)
      ≡ filter (λ j. not (is_over now j)) jobs
unfolding cancel_expired_rows is_over
cancelled_are_over now [] = refl
cancelled_are_over now (j ∷ jobs) = elim (Bool-cases (past now j.expires_at)) [
  | inl gone ↦ elim (Bool-cases (is_settled j.status)) [
    | inl settled ↦ simp (gone, settled, cancelled_are_over now jobs)
    | inr live ↦ simp (gone, live, cancelled_are_over now jobs)
  ]
  | inr here ↦ simp (here, cancelled_are_over now jobs)
]

-- The time is set, and it is before now.
abbrev pub IsPast : ℕ → Option ℕ → Type 0
IsPast now o = (t : ℕ) × (o ≡ some t) × (t < now)

abbrev pub IsOver : ℕ → Job → Type 0
IsOver now j = IsPast now j.expires_at ⊎ IsPast now j.deadline

past_iff : (now : ℕ) (o : Option ℕ) → (past now o ≡ true) ↔ IsPast now o
unfolding past
past_iff now none = ((λ h. cc h), (λ (t, e, _). cc e))
past_iff now (some t) = ((λ h. (t, refl, ground arith)), (λ (u, e, lt). ground arith))

is_over_iff : (now : ℕ) (j : Job) → (is_over now j ≡ true) ↔ IsOver now j
unfolding is_over
is_over_iff now j = ground (arith, past_iff now j.expires_at, past_iff now j.deadline)

-- A job of the database has the id.
abbrev pub Owned : ℕ → Db → Type 0
Owned id db = (j : Job) × In j db.jobs × (j.id ≡ id)

any-owner :
    (id : ℕ) (jobs : List Job)
    → any (λ j. j.id == id) jobs ≡ true
    → (j : Job) × In j jobs × (j.id ≡ id)
any-owner id [] h = absurd (cc h)
any-owner id (j ∷ jobs) h = elim (Bool-cases (j.id == id)) [
  | inl hit ↦ (j, inl refl, ground arith)
  | inr miss ↦ let (k, m, e) = any-owner id jobs (rw miss at h) in (k, inr m, e)
]

owner-any :
    (id : ℕ) (jobs : List Job) (j : Job) → In j jobs → j.id ≡ id → any (λ k. k.id == id) jobs ≡ true
owner-any id [] j m e = absurd m
owner-any id (k ∷ jobs) j (inl first) e =
    let same_id : k.id ≡ id = ap (λ x. x.id) (sym first) ∙ e in ground arith
owner-any id (k ∷ jobs) j (inr later) e = ground (arith, owner-any id jobs j later e)

has_job_iff : (id : ℕ) (db : Db) → (has_job id db ≡ true) ↔ Owned id db
unfolding has_job
has_job_iff id db = (any-owner id db.jobs, λ (j, m, e). owner-any id db.jobs j m e)

stays_iff : (now : ℕ) (j : Job) → (not (is_over now j) ≡ true) ↔ (¬ IsOver now j)
stays_iff now j = (
  (λ h over. ground (arith, (is_over_iff now j).1 over)),
  (λ h. elim (Bool-cases (is_over now j)) [
    | inl over ↦ absurd (h ((is_over_iff now j).0 over))
    | inr here ↦ rw here refl
  ]),
)

-- The rows that a filter keeps, where its test says whether they have a property.
kept_iff :
    {A : Type 0} {P : Type 0} (p : A → Bool) (rows : List A) (a : A)
    → (p a ≡ true) ↔ P
    → In a (filter p rows) ↔ (In a rows × P)
kept_iff p rows a means = (
  (λ m. let (here, passes) = filter-In p rows m in (here, means.0 passes)),
  (λ (here, holds). In-filter p rows here (means.1 holds)),
)

sweep_run :
    (now : ℕ) (db : Db) → sweep now (quiet db) ≡ (ok tt, quiet (delete_jobs (is_over now) db))
unfolding sweep cancel_expired_jobs delete_over_jobs delete_jobs has_job update statement ◌>>=◌ ping
    query
sweep_run now db =
    ap
      (λ (jobs : List Job).
        let kept : Db = record db { jobs = jobs } in
        (
          ok tt,
          quiet (record kept {
            tasks = filter (λ t. has_job t.job_id kept) db.tasks;
            documents = filter (λ r. has_job r.job_id kept) db.documents;
            mapped = filter (λ r. has_job r.job_id kept) db.mapped;
          }),
        ))
      (cancelled_are_over now db.jobs)

-- Where no statement fails, a sweep keeps exactly the jobs that are past neither their expiry nor their
-- deadline, as they were: the status it gives to an expired job is gone with the job. The tasks,
-- documents and links that stay are those of the jobs that stay, and the dedupe cache is left alone.
pub sweep_lem :
    (now : ℕ) (db : Db)
    → (after : Db) × (sweep now (quiet db) ≡ (ok tt, quiet after))
      × ((j : Job) → In j after.jobs ↔ (In j db.jobs × ¬ IsOver now j))
      × ((t : Task) → In t after.tasks ↔ (In t db.tasks × Owned t.job_id after))
      × ((r : DocumentRow) → In r after.documents ↔ (In r db.documents × Owned r.job_id after))
      × ((r : MappedRow) → In r after.mapped ↔ (In r db.mapped × Owned r.job_id after))
      × (after.dedupe ≡ db.dedupe)
unfolding delete_jobs
sweep_lem now db =
    let kept : Db = record db { jobs = filter (λ j. not (is_over now j)) db.jobs } in
    (
      delete_jobs (is_over now) db,
      sweep_run now db,
      (λ j. kept_iff (λ k. not (is_over now k)) db.jobs j (stays_iff now j)),
      (λ t. kept_iff (λ u. has_job u.job_id kept) db.tasks t (has_job_iff t.job_id kept)),
      (λ r. kept_iff (λ u. has_job u.job_id kept) db.documents r (has_job_iff r.job_id kept)),
      (λ r. kept_iff (λ u. has_job u.job_id kept) db.mapped r (has_job_iff r.job_id kept)),
      refl,
    )
