-- ===== src/Server/Paging/Rounds.antt =====
-- internal/server/routes.go: the rounds of an export of all rows in the order of their ids.
use bytefetch.Prelude.{
  ℕ, zero, suc, ◌<◌, ◌≤◌, ◌≡◌, refl, sym, ap, ◌∙◌, inl, inr, true, ◌&&◌, some, List, [], ◌∷◌, ◌++◌,
  length, filter, take, drop, ltb, lt→ltb, ltb→lt, not-ltb, ◌==◌, List-cases, All, AllPairs,
  AllPairs-filter, AllPairs-take, All-take, All-of-In, filter-In, arith, take-append-drop,
}
use mathlib.Core.List.{append_assoc, append-nil}
use mathlib.Core.Path.{ap₂}
use bytefetch.Exec.{Exec, ok, ◌>>=◌}
use bytefetch.Store.Db.{Db}
use bytefetch.Store.Finish.{quiet}
use bytefetch.Store.Listing.{Keys}
use bytefetch.Store.Listing.Order.{rows_after, filter_congr, filter-filter, All-All}
use bytefetch.Server.Paging.{last_id, export_loop}

module _ {A : Type 0} (k : Keys A) where
  pub last_id-append :
      (c : ℕ) (xs ys : List A) → last_id k c (xs ++ ys) ≡ last_id k (last_id k c xs) ys
  unfolding last_id
  last_id-append c [] ys = refl
  last_id-append c (x ∷ xs) ys = last_id-append (k.id x) xs ys

  length-drop-lt :
      (n : ℕ) (r : A) (rs xs : List A) → take n xs ≡ r ∷ rs → length (drop n xs) < length xs
  length-drop-lt zero r rs xs e = cc
  length-drop-lt (suc n) r rs [] e = cc
  length-drop-lt (suc n) r rs (x ∷ xs) e = drop_le n xs
    where
      drop_le : (n : ℕ) (xs : List A) → length (drop n xs) < suc (length xs)
      drop_le zero xs = omega arith
      drop_le (suc n) [] = omega arith
      drop_le (suc n) (x ∷ xs) = omega (arith, drop_le n xs)

  take-nil : (n : ℕ) (xs : List A) → 0 < n → take n xs ≡ [] → xs ≡ []
  take-nil zero xs pos e = absurd (omega arith)
  take-nil (suc n) [] pos e = refl
  take-nil (suc n) (x ∷ xs) pos e = cc

  -- Where each page is the start of what is left, and the last row of a page leads to the rest of
  -- it, the loop writes all that is left.
  module _ (page : ℕ → Exec (List A)) (rest : ℕ → List A) (limit : ℕ) (db : Db)
      (pages : (c : ℕ) → page c (quiet db) ≡ (ok (take limit (rest c)), quiet db))
      (next : (c : ℕ) (r : A) (rs : List A)
        → take limit (rest c) ≡ r ∷ rs
        → rest (last_id k c (r ∷ rs)) ≡ drop limit (rest c))
      (pos : 0 < limit) where
    round_nil :
        (rounds c : ℕ) (out : List A)
        → take limit (rest c) ≡ []
        → export_loop k page true (suc rounds) c out (quiet db) ≡ (ok (some (out, c)), quiet db)
    unfolding export_loop ◌>>=◌
    round_nil rounds c out e = rw (pages c, e)

    round_cons :
        (rounds c : ℕ) (out : List A) (r : A) (rs : List A)
        → take limit (rest c) ≡ r ∷ rs
        → export_loop k page true (suc rounds) c out (quiet db)
          ≡ export_loop k page true rounds (last_id k c (r ∷ rs)) (out ++ r ∷ rs) (quiet db)
    unfolding export_loop ◌>>=◌
    round_cons rounds c out r rs e = rw (pages c, e)

    pub export_loop_all :
        (rounds c : ℕ) (out : List A)
        → length (rest c) < rounds
        → export_loop k page true rounds c out (quiet db)
          ≡ (ok (some (out ++ rest c, last_id k c (rest c))), quiet db)
    unfolding last_id
    export_loop_all zero c out h = absurd (omega arith)
    export_loop_all (suc rounds) c out h = elim (List-cases (take limit (rest c))) [
      | inl e ↦ round_nil rounds c out e ∙ rw (take-nil limit (rest c) pos e, append-nil out)
      | inr (r, rs, e) ↦
          let c' = last_id k c (r ∷ rs) in
          let split : rest c ≡ (r ∷ rs) ++ rest c' =
            sym (take-append-drop limit (rest c)) ∙ ap₂ ◌++◌ e (sym (next c r rs e)) in
          round_cons rounds c out r rs e
          ∙ export_loop_all rounds c' (out ++ r ∷ rs) (
              let fewer = length-drop-lt limit r rs (rest c) e in
              omega (arith, ap length (next c r rs e)))
          ∙ rw (append_assoc, split) (rw (last_id-append c (r ∷ rs) (rest c')))
    ]

module _ {A : Type 0} (k : Keys A) where
  last_id-ge :
      (c : ℕ) (xs : List A)
      → AllPairs (λ r s. k.id r < k.id s) xs
      → All (λ x. c < k.id x) xs
      → c ≤ last_id k c xs
  unfolding last_id
  last_id-ge c [] h low = omega arith
  last_id-ge c (x ∷ xs) h low = omega (arith, last_id-ge (k.id x) xs h.1 h.0)

  All-above :
      (c : ℕ) (xs : List A) → All (λ x. c < k.id x) xs → filter (λ x. ltb c (k.id x)) xs ≡ xs
  All-above c [] h = refl
  All-above c (x ∷ xs) h = rw (lt→ltb c (k.id x) h.0, All-above c xs h.1)

  -- The rows beyond the last of the first `n` are those after the first `n`.
  filter_beyond :
      (n c : ℕ) (xs : List A)
      → AllPairs (λ r s. k.id r < k.id s) xs
      → All (λ x. c < k.id x) xs
      → filter (λ x. ltb (last_id k c (take n xs)) (k.id x)) xs ≡ drop n xs
  unfolding last_id
  filter_beyond zero c xs h low = All-above c xs low
  filter_beyond (suc n) c [] h low = refl
  filter_beyond (suc n) c (x ∷ xs) h low =
      let ge = last_id-ge (k.id x) (take n xs) (AllPairs-take _ n xs h.1) (All-take _ n xs h.0) in
      rw (not-ltb (last_id k (k.id x) (take n xs)) (k.id x) ge)
        (filter_beyond n (k.id x) xs h.1 h.0)

  rows_after_le :
      (job_id c c' : ℕ) (rows : List A)
      → c ≤ c'
      → rows_after k job_id rows c' ≡ filter (λ r. ltb c' (k.id r)) (rows_after k job_id rows c)
  unfolding rows_after
  rows_after_le job_id c c' rows le =
      filter_congr _ _ rows (All-All _ (λ r. ground arith) rows)
      ∙ sym
          (filter-filter (λ r. k.job_id r == job_id && ltb c (k.id r)) (λ r. ltb c' (k.id r)) rows)

  rows_after-above :
      (job_id c : ℕ) (rows : List A) → All (λ r. c < k.id r) (rows_after k job_id rows c)
  unfolding rows_after
  rows_after-above job_id c rows =
      All-of-In _ _ λ r m. let (_, kept) = filter-In _ rows m in ltb→lt c (k.id r) (ground arith)

  rows_after-sorted :
      (job_id c : ℕ) (rows : List A)
      → AllPairs (λ r s. k.id r < k.id s) rows
      → AllPairs (λ r s. k.id r < k.id s) (rows_after k job_id rows c)
  unfolding rows_after
  rows_after-sorted job_id c rows h = AllPairs-filter _ _ rows h

  pub rows_after-next :
      (job_id limit c : ℕ) (rows : List A) (r : A) (rs : List A)
      → AllPairs (λ r s. k.id r < k.id s) rows
      → take limit (rows_after k job_id rows c) ≡ r ∷ rs
      → rows_after k job_id rows (last_id k c (r ∷ rs)) ≡ drop limit (rows_after k job_id rows c)
  rows_after-next job_id limit c rows r rs h e =
      let left = rows_after k job_id rows c in
      let sorted = rows_after-sorted job_id c rows h in
      let low = rows_after-above job_id c rows in
      rw (← e) (
        rows_after_le job_id c (last_id k c (take limit left)) rows (
          last_id-ge c (take limit left) (AllPairs-take _ limit left sorted)
            (All-take _ limit left low))
        ∙ filter_beyond limit c left sorted low)
