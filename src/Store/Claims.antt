-- ===== src/Store/Claims.antt =====
-- `DequeueTask`: which task a worker gets, and for how long it has it to itself.
use bytefetch.Prelude.{
  ℕ, ◌<◌, ◌≤◌, ◌-◌, ◌+◌, ◌≡◌, ◌≢◌, refl, ap, subst, ◌∙◌, ◌⊎◌, inl, inr, Bool, true, false, Option,
  none, some, List, [], ◌∷◌, filter, update_where, leb, ◌==◌, Bool-cases, All, All-map, In, All-In,
  All-of-In, filter-In, In-filter, arith,
}
use bytefetch.Exec.{ok, err, no_rows, Result}
use bytefetch.Store.Rows.{Task, TaskStatus}
use bytefetch.Store.Db.{Db}
use bytefetch.Store.Tasks.{claimable, lesser, least, claimed, claim, dequeue_row, update_task}

-- No live lease stands on the task: it is queued, or its last heartbeat came before the threshold.
abbrev pub IsFree : ℕ → Task → Type 0
IsFree threshold t =
    (t.status ≡ TaskStatus.queued)
    ⊎ ((t.status ≡ TaskStatus.processing)
        × ((t.heartbeat_at ≡ none) ⊎ ((b : ℕ) × (t.heartbeat_at ≡ some b) × (b < threshold))))

claimable_sound :
    (threshold : ℕ) (locked : ℕ → Bool) (t : Task)
    → claimable threshold locked t ≡ true
    → (locked t.id ≡ false) × IsFree threshold t
unfolding claimable
claimable_sound threshold locked t h = ground arith

claimable_complete :
    (threshold : ℕ) (locked : ℕ → Bool) (t : Task)
    → locked t.id ≡ false
    → IsFree threshold t
    → claimable threshold locked t ≡ true
unfolding claimable
claimable_complete threshold locked t h (inl queued) = ground arith
claimable_complete threshold locked t h (inr (processing, inl never)) = ground arith
claimable_complete threshold locked t h (inr (processing, inr (b, beat, over))) = ground arith

-- The first row by id, or none in an empty table.
abbrev pub IsLeast : List Task → Option Task → Type 0
IsLeast ts none = ts ≡ []
IsLeast ts (some t) = In t ts × All (λ u. t.id ≤ u.id) ts

lesser-IsLeast :
    (t : Task) (ts : List Task) (o : Option Task) → IsLeast ts o → IsLeast (t ∷ ts) (lesser t o)
unfolding lesser
lesser-IsLeast t ts none h = rw h ((inl refl), ((omega arith), tt))
lesser-IsLeast t ts (some u) (m, low) = elim (Bool-cases (leb t.id u.id)) [
  | inl le ↦ rw le (
    inl refl,
    (omega arith, All-map (λ v h. let first : t.id ≤ u.id = ground arith in omega arith) ts low),
  )
  | inr gt ↦ rw gt (inr m, (ground arith, low))
]

least-IsLeast : (ts : List Task) → IsLeast ts (least ts)
unfolding least
least-IsLeast [] = refl
least-IsLeast (t ∷ ts) = lesser-IsLeast t ts (least ts) (least-IsLeast ts)

-- What a worker that asks for a task gets.
pub data Claims (now threshold : ℕ) (locked : ℕ → Bool) (db : Db) (r : Result Task × Db)
    : Type 0 where
  idle :
      All (λ t. (locked t.id ≡ true) ⊎ ¬ IsFree threshold t) db.tasks
      → r ≡ (err no_rows, db)
      → Claims now threshold locked db r
  taken :
      (t : Task)
      → In t db.tasks
      → locked t.id ≡ false
      → IsFree threshold t
      → All (λ u. locked u.id ≡ false → IsFree threshold u → t.id ≤ u.id) db.tasks
      → r ≡ (ok (claimed now t), update_task t.id (claimed now) db)
      → Claims now threshold locked db r

module _ (now threshold : ℕ) (locked : ℕ → Bool) (db : Db) where
  none-IsFree :
      filter (claimable threshold locked) db.tasks ≡ []
      → All (λ t. (locked t.id ≡ true) ⊎ ¬ IsFree threshold t) db.tasks
  none-IsFree e = All-of-In _ db.tasks λ t m. elim (Bool-cases (locked t.id)) [
    | inl held ↦ inl held
    | inr open_row ↦ inr λ free.
        subst (In t) e
          (In-filter _ db.tasks m (claimable_complete threshold locked t open_row free))
  ]

  claim-Claims :
      (o : Option Task)
      → IsLeast (filter (claimable threshold locked) db.tasks) o
      → Claims now threshold locked db (claim now db o)
  unfolding claim update_task
  claim-Claims none e = idle (none-IsFree e) refl
  claim-Claims (some t) (m, low) =
      let (here, free) = filter-In (claimable threshold locked) db.tasks m in
      let (open_row, waiting) = claimable_sound threshold locked t free in
      taken t here open_row waiting
        (All-of-In _ db.tasks λ u n k free_u.
          All-In _ _ low (In-filter _ db.tasks n (claimable_complete threshold locked u k free_u)))
        refl

-- A dequeue takes the task with the lowest id among those that no statement holds and no live lease
-- covers, and says that there is none exactly when there is none.
pub dequeue_row-Claims :
    (now lease_timeout : ℕ) (locked : ℕ → Bool) (db : Db)
    → Claims now (now - lease_timeout) locked db (dequeue_row now lease_timeout locked db)
unfolding dequeue_row
dequeue_row-Claims now lease_timeout locked db =
    claim-Claims now (now - lease_timeout) locked db _
      (least-IsLeast (filter (claimable (now - lease_timeout) locked) db.tasks))

-- If the row has the id, it is being processed under a heartbeat at or after the threshold.
abbrev pub UnderLease : ℕ → ℕ → Task → Type 0
UnderLease id threshold t =
    t.id ≡ id
    → (b : ℕ) × (t.status ≡ TaskStatus.processing) × (t.heartbeat_at ≡ some b) × (threshold ≤ b)

abbrev pub Leased : ℕ → ℕ → Db → Type 0
Leased id threshold db = All (UnderLease id threshold) db.tasks

not-IsFree_of_lease :
    (threshold : ℕ) (t : Task) (b : ℕ)
    → t.status ≡ TaskStatus.processing
    → t.heartbeat_at ≡ some b
    → threshold ≤ b
    → ¬ IsFree threshold t
not-IsFree_of_lease threshold t b p e le (inl q) = ground arith
not-IsFree_of_lease threshold t b p e le (inr (_, inl n)) = ground arith
not-IsFree_of_lease threshold t b p e le (inr (_, inr (c, f, lt))) = ground arith

-- While its lease lasts, a task is given to nobody else.
pub dequeue_row-Leased :
    (now lease_timeout : ℕ) (locked : ℕ → Bool) (db db' : Db) (id : ℕ) (t : Task)
    → Leased id (now - lease_timeout) db
    → dequeue_row now lease_timeout locked db ≡ (ok t, db')
    → t.id ≢ id
unfolding claimed
dequeue_row-Leased now lease_timeout locked db db' id t l e same_id =
    elim (dequeue_row-Claims now lease_timeout locked db) [
      | idle _ none_found ↦ cc (e, none_found)
      | taken u m _ free _ found ↦
          let same_task : claimed now u ≡ t = cc (e, found) in
          let (b, p, beat, le) = All-In _ db.tasks l m (ap (λ v. v.id) same_task ∙ same_id) in
          not-IsFree_of_lease (now - lease_timeout) u b p beat le free
    ]

-- A statement that sets the heartbeat of a task puts it under a lease.
update_task-Leased :
    (now task_id threshold : ℕ) (f : Task → Task)
    → ((t : Task) → ((f t).status ≡ TaskStatus.processing) × ((f t).heartbeat_at ≡ some now))
    → threshold ≤ now
    → (tasks : List Task)
    → All (UnderLease task_id threshold) (update_where (λ t. t.id == task_id) f tasks)
update_task-Leased now task_id threshold f k le [] = tt
update_task-Leased now task_id threshold f k le (t ∷ tasks) =
    let rest = update_task-Leased now task_id threshold f k le tasks in
    elim (Bool-cases (t.id == task_id)) [
      | inl hit ↦ rw hit ((λ _. (now, (k t).0, (k t).1, le)), rest)
      | inr miss ↦ rw miss ((λ e. absurd (ground arith)), rest)
    ]

-- A statement on another row leaves the lease alone.
other-Leased :
    (id other threshold : ℕ) (f : Task → Task)
    → other ≢ id
    → ((t : Task) → (f t).id ≡ t.id)
    → (tasks : List Task) → All (UnderLease id threshold) tasks
    → All (UnderLease id threshold) (update_where (λ t. t.id == other) f tasks)
other-Leased id other threshold f ne same_id [] h = tt
other-Leased id other threshold f ne same_id (t ∷ tasks) (h, hs) =
    let rest = other-Leased id other threshold f ne same_id tasks hs in
    elim (Bool-cases (t.id == other)) [
      | inl hit ↦ rw hit ((λ e. absurd (ne (ground (arith, same_id t)))), rest)
      | inr miss ↦ rw miss (h, rest)
    ]

later-UnderLease :
    (id since threshold : ℕ)
    → threshold ≤ since
    → (t : Task) → UnderLease id since t
    → UnderLease id threshold t
later-UnderLease id since threshold le t h e =
    let (b, p, beat, k) = h e in (b, p, beat, omega arith)

-- The database after dequeues at the given times, each with the rows that are locked meanwhile.
unfoldable pub after_dequeues : ℕ → List (ℕ × (ℕ → Bool)) → Db → Db
after_dequeues lease_timeout [] db = db
after_dequeues lease_timeout ((time, locked) ∷ rest) db =
    after_dequeues lease_timeout rest (dequeue_row time lease_timeout locked db).1

-- A dequeue within the lease timeout leaves the lease as it is.
dequeue-Leased :
    (id since later lease_timeout : ℕ) (locked : ℕ → Bool) (db : Db)
    → later ≤ since + lease_timeout
    → Leased id since db
    → Leased id since (dequeue_row later lease_timeout locked db).1
unfolding claimed update_task
dequeue-Leased id since later lease_timeout locked db soon l =
    elim (dequeue_row-Claims later lease_timeout locked db) [
      | idle _ none_found ↦ rw none_found l
      | taken t m _ free _ found ↦ rw found (
          other-Leased id t.id since (claimed later)
            (λ e.
              let (b, p, beat, le) = All-In _ db.tasks l m e in
              not-IsFree_of_lease (later - lease_timeout) t b p beat (omega arith) free)
            (λ u. refl) db.tasks l)
    ]

after_dequeues-Leased :
    (id since lease_timeout : ℕ) (between : List (ℕ × (ℕ → Bool))) (db : Db)
    → All (λ d. d.0 ≤ since + lease_timeout) between
    → Leased id since db
    → Leased id since (after_dequeues lease_timeout between db)
unfolding after_dequeues
after_dequeues-Leased id since lease_timeout [] db h l = l
after_dequeues-Leased id since lease_timeout ((time, locked) ∷ rest) db (soon, h) l =
    after_dequeues-Leased id since lease_timeout rest (dequeue_row time lease_timeout locked db).1 h
      (dequeue-Leased id since time lease_timeout locked db soon l)

-- A worker that dequeues a task holds a lease on it: while nothing but dequeues follows, none of them
-- that comes within the lease timeout returns the task, however many came before it and whatever
-- rows are locked.
pub dequeue_row_exclusive :
    (now later lease_timeout : ℕ) (locked locked' : ℕ → Bool) (between : List (ℕ × (ℕ → Bool)))
    (db db' db'' : Db) (t u : Task)
    → All (λ d. d.0 ≤ now + lease_timeout) between
    → later ≤ now + lease_timeout
    → dequeue_row now lease_timeout locked db ≡ (ok t, db')
    → dequeue_row later lease_timeout locked' (after_dequeues lease_timeout between db')
      ≡ (ok u, db'')
    → u.id ≢ t.id
unfolding claimed update_task
dequeue_row_exclusive now later lease_timeout locked locked' between db db' db'' t u soon_all soon
      first second =
    elim (dequeue_row-Claims now lease_timeout locked db) [
      | idle _ none_found ↦ absurd (cc (first, none_found))
      | taken v m _ _ _ found ↦
          let same_task : claimed now v ≡ t = cc (first, found) in
          let same_db : update_task v.id (claimed now) db ≡ db' = cc (first, found) in
          let lease : Leased v.id now (update_task v.id (claimed now) db) =
            update_task-Leased now v.id now (claimed now) (λ w. (refl, refl)) (omega arith)
              db.tasks in
          let held : Leased t.id now db' = subst (Leased t.id now) same_db (
            subst (λ i. Leased i now (update_task v.id (claimed now) db)) (ap (λ w. w.id) same_task)
              lease) in
          let kept = after_dequeues-Leased t.id now lease_timeout between db' soon_all held in
          dequeue_row-Leased later lease_timeout locked' (after_dequeues lease_timeout between db')
            db'' t.id u
            (All-map (later-UnderLease t.id now (later - lease_timeout) (omega arith)) _ kept)
            second
    ]
