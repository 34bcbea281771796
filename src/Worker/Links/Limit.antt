-- ===== src/Worker/Links/Limit.antt =====
-- The cut that `max_tasks` makes.
use bytefetch.Prelude.{
  ℕ, ◌-◌, ◌≤◌, ◌<◌, ◌≡◌, refl, sym, ap, inl, inr, List, [], ◌∷◌, length, take, length-take, ltb,
  leb, lt→ltb, ltb→le, if◌then◌else◌, Bool-cases, zero, suc, All, AllPairs, AllPairs-take, All-take,
  arith,
}
use bytefetch.Store.Rows.{NewTask}
use bytefetch.Worker.Links.{cap_tasks}

-- The limit on the tasks of a job, where 0 is no limit.
abbrev pub within_limit : ℕ → ℕ → List NewTask → List NewTask
within_limit max_tasks current tasks =
    if ltb 0 max_tasks then take (max_tasks - current) tasks else tasks

take_all : (n : ℕ) (tasks : List NewTask) → length tasks ≤ n → take n tasks ≡ tasks
take_all zero [] h = refl
take_all zero (t ∷ tasks) h = absurd (omega arith)
take_all (suc n) [] h = refl
take_all (suc n) (t ∷ tasks) h = ap (◌∷◌ t) (take_all n tasks (omega arith))

pub cap_tasks_lem :
    (max_tasks current : ℕ) (tasks : List NewTask)
    → cap_tasks max_tasks current tasks ≡ take (max_tasks - current) tasks
unfolding cap_tasks
cap_tasks_lem max_tasks current tasks = elim (Bool-cases (leb max_tasks current)) [
  | inl spent ↦
      let nothing_left : max_tasks - current ≡ 0 = ground arith in rw (spent, nothing_left)
  | inr room ↦ elim (Bool-cases (ltb (max_tasks - current) (length tasks))) [
    | inl many ↦ rw (room, many)
    | inr few ↦ rw (room, few) (sym (take_all _ tasks (ltb→le _ _ few)))
  ]
]

pub within_limit-nil : (max_tasks current : ℕ) → within_limit max_tasks current [] ≡ []
within_limit-nil max_tasks current = elim (Bool-cases (ltb 0 max_tasks)) [
  | inl e ↦ rw e (take-nil (max_tasks - current))
  | inr e ↦ rw e
]
  where
    take-nil : (n : ℕ) → take {A = NewTask} n [] ≡ []
    take-nil zero = refl
    take-nil (suc n) = refl

pub within_limit-All :
    (P : NewTask → Type 0) (m c : ℕ) (ts : List NewTask) → All P ts → All P (within_limit m c ts)
within_limit-All P m c ts h = elim (Bool-cases (ltb 0 m)) [
  | inl e ↦ rw e (All-take P (m - c) ts h)
  | inr e ↦ rw e h
]

pub within_limit-AllPairs :
    (R : NewTask → NewTask → Type 0) (m c : ℕ) (ts : List NewTask)
    → AllPairs R ts
    → AllPairs R (within_limit m c ts)
within_limit-AllPairs R m c ts h = elim (Bool-cases (ltb 0 m)) [
  | inl e ↦ rw e (AllPairs-take R (m - c) ts h)
  | inr e ↦ rw e h
]

pub within_limit-length :
    (m c : ℕ) (ts : List NewTask) → 0 < m → length (within_limit m c ts) ≤ m - c
within_limit-length m c ts pos = rw (lt→ltb 0 m pos) (omega (arith, length-take (m - c) ts))
