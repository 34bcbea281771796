-- ===== src/Store/Listing/Members.antt =====
-- What sorting and cutting keep of the rows, and how counts compare.
use bytefetch.Prelude.{
  ℕ, zero, suc, ◌<◌, ◌≤◌, ◌≡◌, subst, ◌⊎◌, inl, inr, Bool, true, false, List, [], ◌∷◌, length, take,
  count_if, Bool-cases, In, arith,
}
use bytefetch.Store.Listing.{insert_sorted, order_by}

module _ {A : Type 0} where
  insert_sorted-In :
      (lt : A → A → Bool) (x a : A) (ys : List A) → In a (insert_sorted lt x ys) → (a ≡ x) ⊎ In a ys
  unfolding insert_sorted
  insert_sorted-In lt x a [] m = m
  insert_sorted-In lt x a (y ∷ ys) m = elim (Bool-cases (lt y x)) [
    | inl later ↦ elim (rw later at m) [
      | inl e ↦ inr (inl e)
      | inr n ↦ elim (insert_sorted-In lt x a ys n) [ inl e ↦ inl e | inr o ↦ inr (inr o) ]
    ]
    | inr here ↦ rw here at m
  ]

  -- Sorting and cutting make up no row.
  pub order_by-In : (lt : A → A → Bool) (a : A) (xs : List A) → In a (order_by lt xs) → In a xs
  unfolding order_by
  order_by-In lt a [] m = m
  order_by-In lt a (x ∷ xs) m = elim (insert_sorted-In lt x a (order_by lt xs) m) [
    | inl e ↦ inl e
    | inr n ↦ inr (order_by-In lt a xs n)
  ]

  pub take-In : (n : ℕ) (a : A) (xs : List A) → In a (take n xs) → In a xs
  take-In zero a xs m = absurd m
  take-In (suc n) a [] m = m
  take-In (suc n) a (x ∷ xs) (inl e) = inl e
  take-In (suc n) a (x ∷ xs) (inr m) = inr (take-In n a xs m)

  count_if-le :
      (p q : A → Bool) (xs : List A)
      → ((x : A) → p x ≡ true → q x ≡ true)
      → count_if p xs ≤ count_if q xs
  count_if-le p q [] h = omega arith
  count_if-le p q (x ∷ xs) h = ground (arith, count_if-le p q xs h, h x)

  -- A test that fewer elements pass, by one at least.
  pub count_if-lt :
      (p q : A → Bool) (a : A) (xs : List A)
      → ((x : A) → p x ≡ true → q x ≡ true)
      → In a xs
      → p a ≡ false
      → q a ≡ true
      → count_if p xs < count_if q xs
  count_if-lt p q a (x ∷ xs) h (inl e) np qa =
      let np' : p x ≡ false = subst (λ y. p y ≡ false) e np in
      let qa' : q x ≡ true = subst (λ y. q y ≡ true) e qa in
      rw (np', qa') (omega (arith, count_if-le p q xs h))
  count_if-lt p q a (x ∷ xs) h (inr m) np qa = ground (arith, count_if-lt p q a xs h m np qa, h x)
  count_if-lt p q a [] h m np qa = absurd m

  pub count_if-length : (p : A → Bool) (xs : List A) → count_if p xs ≤ length xs
  count_if-length p [] = omega arith
  count_if-length p (x ∷ xs) = ground (arith, count_if-length p xs)
