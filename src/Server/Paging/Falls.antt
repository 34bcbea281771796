-- ===== src/Server/Paging/Falls.antt =====
-- internal/server/routes.go: what is left to an export falls with each of its rounds.
use bytefetch.Prelude.{
  ℕ, zero, suc, ◌<◌, ◌≤◌, ◌≡◌, refl, ap, ◌∙◌, inl, inr, Text, Bool, true, false, Option, some, List,
  [], ◌∷◌, ◌++◌, length, count_if, ltb, lt→ltb, if◌then◌else◌, if_true, if_false, Bool-cases,
  List-cases, All, In, All-In, filter-In, arith,
}
use bytefetch.Exec.{Exec, ok, ◌>>=◌}
use bytefetch.Store.Db.{Db}
use bytefetch.Store.Finish.{quiet}
use bytefetch.Store.Listing.{
  Keys, Direction, Column, OrderClause, beyond, select_page, select_after,
}
use bytefetch.Store.Listing.Members.{order_by-In, take-In, count_if-lt, count_if-length}
use bytefetch.Server.Paging.{last_id, export_loop}

module _ {A : Type 0} (k : Keys A) where
  last_id-In :
      (c : ℕ) (r : A) (rs : List A) → (x : A) × In x (r ∷ rs) × (last_id k c (r ∷ rs) ≡ k.id x)
  unfolding last_id
  last_id-In c r [] = (r, inl refl, refl)
  last_id-In c r (s ∷ rs) = let (x, m, e) = last_id-In (k.id r) s rs in (x, inr m, e)

  -- Where a measure falls from the cursor of a page to the id of each of its rows, the loop ends.
  module _ (page : ℕ → Exec (List A)) (rows : ℕ → List A) (left : ℕ → ℕ) (all : Bool) (db : Db)
      (pages : (c : ℕ) → page c (quiet db) ≡ (ok (rows c), quiet db))
      (falls : (c : ℕ) (x : A) → In x (rows c) → left (k.id x) < left c) where
    round_end :
        (rounds c : ℕ) (out : List A)
        → rows c ≡ []
        → export_loop k page all (suc rounds) c out (quiet db) ≡ (ok (some (out, c)), quiet db)
    unfolding export_loop ◌>>=◌
    round_end rounds c out e = rw (pages c, e)

    round_more :
        (rounds c : ℕ) (out : List A) (r : A) (rs : List A)
        → rows c ≡ r ∷ rs
        → all ≡ true
        → export_loop k page all (suc rounds) c out (quiet db)
          ≡ export_loop k page all rounds (last_id k c (r ∷ rs)) (out ++ r ∷ rs) (quiet db)
    unfolding export_loop ◌>>=◌
    round_more rounds c out r rs e more =
        rw (pages c, e)
          (ap (λ (m : Exec (Option (List A × ℕ))). m (quiet db)) (if_true _ _ all more))

    round_once :
        (rounds c : ℕ) (out : List A) (r : A) (rs : List A)
        → rows c ≡ r ∷ rs
        → all ≡ false
        → export_loop k page all (suc rounds) c out (quiet db)
          ≡ (ok (some (out ++ r ∷ rs, last_id k c (r ∷ rs))), quiet db)
    unfolding export_loop ◌>>=◌
    round_once rounds c out r rs e once =
        rw (pages c, e)
          (ap (λ (m : Exec (Option (List A × ℕ))). m (quiet db)) (if_false _ _ all once))

    pub export_loop_ends :
        (rounds c : ℕ) (out : List A)
        → left c < rounds
        → (found : List A × ℕ) × (export_loop k page all rounds c out (quiet db)
            ≡ (ok (some found), quiet db))
    export_loop_ends zero c out h = absurd (omega arith)
    export_loop_ends (suc rounds) c out h = elim (List-cases (rows c)) [
      | inl e ↦ ((out, c), round_end rounds c out e)
      | inr (r, rs, e) ↦ elim (Bool-cases all) [
        | inl more ↦
            let (x, m, at_x) = last_id-In c r rs in
            let less = falls c x (rw e m) in
            let (found, f) =
              export_loop_ends rounds (last_id k c (r ∷ rs)) (out ++ r ∷ rs)
                (rw at_x (omega arith)) in
            (found, round_more rounds c out r rs e more ∙ f)
        | inr once ↦ ((out ++ r ∷ rs, last_id k c (r ∷ rs)), round_once rounds c out r rs e once)
      ]
    ]

module _ {A : Type 0} (k : Keys A) where
  -- How many rows may still come after a cursor.
  pub left_over : Direction → List A → ℕ → ℕ
  left_over Direction.asc rows c = count_if (λ r. ltb c (k.id r)) rows
  left_over Direction.desc rows c =
      if ltb 0 c then count_if (λ r. ltb (k.id r) c) rows else suc (length rows)

  pub left_over-le :
      (d : Direction) (rows : List A) (c : ℕ) → left_over d rows c ≤ suc (length rows)
  unfolding left_over
  left_over-le Direction.asc rows c =
      let le = count_if-length (λ r. ltb c (k.id r)) rows in omega arith
  left_over-le Direction.desc rows c =
      let le = count_if-length (λ r. ltb (k.id r) c) rows in ground arith

module _ {A : Type 0} (k : Keys A) (collate : Text → Text → Bool) where
  select_page-In :
      (clause : OrderClause) (job_id limit : ℕ) (rows : List A) (x : A)
      → In x (select_page k collate clause job_id limit 0 rows)
      → In x rows
  unfolding select_page
  select_page-In clause job_id limit rows x m =
      (filter-In _ rows (order_by-In _ x _ (take-In limit x _ m))).0

  select_after-In :
      (clause : OrderClause) (job_id limit cursor : ℕ) (rows : List A) (x : A)
      → In x (select_after k collate clause job_id limit cursor rows)
      → In x rows × (beyond k collate clause.direction cursor x ≡ true)
  unfolding select_after
  select_after-In clause job_id limit cursor rows x m =
      let (n, kept) = filter-In _ rows (order_by-In _ x _ (take-In limit x _ m)) in
      (n, ground arith)

  -- The page at a cursor.
  unfoldable pub page_rows : OrderClause → ℕ → ℕ → List A → ℕ → List A
  page_rows clause job_id limit rows c =
      if ltb 0 c
      then select_after k collate clause job_id limit c rows
      else select_page k collate clause job_id limit 0 rows

  pub page_rows_falls :
      (d : Direction) (column : Column) (job_id limit : ℕ) (rows : List A)
      → All (λ r. 0 < k.id r) rows
      → (c : ℕ) (x : A)
      → In x (page_rows (record { direction = d; column = column }) job_id limit rows c)
      → left_over k d rows (k.id x) < left_over k d rows c
  unfolding left_over page_rows beyond
  page_rows_falls Direction.asc column job_id limit rows pos c x m = elim (Bool-cases (ltb 0 c)) [
    | inl later ↦
        let (n, kept) = select_after-In _ job_id limit c rows x (rw later at m) in
        count_if-lt _ _ x rows (λ y h. ground arith) n (ground arith) kept
    | inr first ↦
        let n = select_page-In _ job_id limit rows x (rw first at m) in
        let px = All-In _ rows pos n in
        count_if-lt _ _ x rows (λ y h. ground arith) n (ground arith) (ground arith)
  ]
  page_rows_falls Direction.desc column job_id limit rows pos c x m = elim (Bool-cases (ltb 0 c)) [
    | inl later ↦
        let (n, kept) = select_after-In _ job_id limit c rows x (rw later at m) in
        let px = lt→ltb 0 (k.id x) (All-In _ rows pos n) in
        rw (later, px) (count_if-lt _ _ x rows (λ y h. ground arith) n (ground arith) kept)
    | inr first ↦
        let n = select_page-In _ job_id limit rows x (rw first at m) in
        let px = lt→ltb 0 (k.id x) (All-In _ rows pos n) in
        let le = count_if-length (λ r. ltb (k.id r) (k.id x)) rows in rw (first, px) (omega arith)
  ]
