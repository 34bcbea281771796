-- ===== src/Store/Listing/Order.antt =====
-- Sorting and selecting rows that already stand in the order of their ids.
use bytefetch.Prelude.{
  ℕ, ◌<◌, ◌≡◌, refl, ap, ◌∙◌, Text, Bool, false, ◌&&◌, List, [], ◌∷◌, filter, take, ltb, ◌==◌, All,
  AllPairs, All-map, AllPairs-filter, arith,
}
use bytefetch.Store.Listing.{
  Keys, Column, Direction, OrderClause, before, insert_sorted, order_by, select_page, select_after,
}

module _ {A : Type 0} (lt : A → A → Bool) where
  insert_sorted_first :
      (x : A) (ys : List A) → All (λ y. lt y x ≡ false) ys → insert_sorted lt x ys ≡ x ∷ ys
  unfolding insert_sorted
  insert_sorted_first x [] h = refl
  insert_sorted_first x (y ∷ ys) h = rw h.0

  -- A list that is in order stays as it is.
  pub order_by_sorted : (xs : List A) → AllPairs (λ r s. lt s r ≡ false) xs → order_by lt xs ≡ xs
  unfolding order_by
  order_by_sorted [] h = refl
  order_by_sorted (x ∷ xs) h = rw (order_by_sorted xs h.1) (insert_sorted_first x xs h.0)

module _ {A : Type 0} where
  pub filter_congr :
      (p q : A → Bool) (xs : List A) → All (λ x. p x ≡ q x) xs → filter p xs ≡ filter q xs
  filter_congr p q [] h = refl
  filter_congr p q (x ∷ xs) h = rw (h.0, filter_congr p q xs h.1)

  pub filter-filter :
      (p q : A → Bool) (xs : List A) → filter q (filter p xs) ≡ filter (λ x. p x && q x) xs
  filter-filter p q [] = refl
  filter-filter p q (x ∷ xs) = ground (arith, filter-filter p q xs)

  pub AllPairs-weaken :
      {R S : A → A → Type 0}
      → ((x y : A) → R x y → S x y)
      → (xs : List A) → AllPairs R xs
      → AllPairs S xs
  AllPairs-weaken f [] h = tt
  AllPairs-weaken f (x ∷ xs) h = (All-map (f x) xs h.0, AllPairs-weaken f xs h.1)

  pub All-All : (P : A → Type 0) → ((x : A) → P x) → (xs : List A) → All P xs
  All-All P f [] = tt
  All-All P f (x ∷ xs) = (f x, All-All P f xs)

-- The rows of a job after a cursor, in the order of their ids.
unfoldable pub rows_after : {A : Type 0} → Keys A → ℕ → List A → ℕ → List A
rows_after k job_id rows cursor = filter (λ r. k.job_id r == job_id && ltb cursor (k.id r)) rows

module _ {A : Type 0} (k : Keys A) (collate : Text → Text → Bool) where
  abbrev pub ById : List A → Type 0
  ById = AllPairs (λ r s. k.id r < k.id s)

  abbrev pub by_id : OrderClause
  by_id = record { direction = Direction.asc; column = Column.id }

  not_before : (r s : A) → k.id r < k.id s → before k collate by_id s r ≡ false
  unfolding before
  not_before r s h = ground arith

  order_by_id :
      (p : A → Bool) (rows : List A)
      → ById rows
      → order_by (before k collate by_id) (filter p rows) ≡ filter p rows
  order_by_id p rows h =
      order_by_sorted (before k collate by_id) (filter p rows)
        (AllPairs-weaken not_before (filter p rows) (AllPairs-filter _ p rows h))

  pub select_after-by_id :
      (job_id limit cursor : ℕ) (rows : List A)
      → ById rows
      → select_after k collate by_id job_id limit cursor rows
        ≡ take limit (rows_after k job_id rows cursor)
  unfolding select_after rows_after
  select_after-by_id job_id limit cursor rows h =
      ap (take limit) (order_by_id (λ r. k.job_id r == job_id && ltb cursor (k.id r)) rows h)

  pub select_page-by_id :
      (job_id limit : ℕ) (rows : List A)
      → ById rows
      → All (λ r. 0 < k.id r) rows
      → select_page k collate by_id job_id limit 0 rows ≡ take limit (rows_after k job_id rows 0)
  unfolding select_page rows_after
  select_page-by_id job_id limit rows h pos = ap (take limit) (
      order_by_id (λ r. k.job_id r == job_id) rows h
      ∙ filter_congr _ _ rows (All-map (λ r p. ground arith) rows pos))
