-- ===== src/Prelude/Predicates.antt =====
-- Predicates on lists by recursion, which the tactics read and build as tuples.
use mathlib.Core.Path.{◌≡◌, refl, sym, subst}
use mathlib.Core.Bool.{Bool, true}
use mathlib.Core.Logic.{◌≢◌, ◌⊎◌, inl, inr}
use mathlib.Core.List.{List, [], ◌∷◌, ◌++◌, map}
use Prim.Native.Nat.{ℕ, zero, suc}
use bytefetch.Prelude.Tests.{Bool-cases}
use bytefetch.Prelude.Lists.{filter, take, update_where}

-- Every element has the property.
abbrev pub All {ℓ κ} : {A : Type ℓ} → (A → Type κ) → List A → Type κ
All P [] = Unit
All P (x ∷ xs) = P x × All P xs

-- The element stands in the list.
abbrev pub In : {A : Type 0} → A → List A → Type 0
In a [] = ⊥
In a (x ∷ xs) = (a ≡ x) ⊎ In a xs

-- Each element is related to all that come after it.
abbrev pub AllPairs {ℓ κ} : {A : Type ℓ} → (A → A → Type κ) → List A → Type κ
AllPairs R [] = Unit
AllPairs R (x ∷ xs) = All (R x) xs × AllPairs R xs

module _ {κ} {A : Type 0} (P : A → Type κ) where
  pub All-In : (xs : List A) {a : A} → All P xs → In a xs → P a
  All-In [] h m = absurd m
  All-In (x ∷ xs) h (inl e) = subst P (sym e) h.0
  All-In (x ∷ xs) h (inr m) = All-In xs h.1 m

  pub All-of-In : (xs : List A) → ((a : A) → In a xs → P a) → All P xs
  All-of-In [] f = tt
  All-of-In (x ∷ xs) f = (f x (inl refl), All-of-In xs (λ a m. f a (inr m)))

  pub All-append : (xs ys : List A) → All P xs → All P ys → All P (xs ++ ys)
  All-append [] ys h k = k
  All-append (x ∷ xs) ys h k = (h.0, All-append xs ys h.1 k)

  pub All-filter : (p : A → Bool) (xs : List A) → All P xs → All P (filter p xs)
  All-filter p [] h = tt
  All-filter p (x ∷ xs) h = elim (Bool-cases (p x)) [
    | inl e ↦ rw e (h.0, All-filter p xs h.1)
    | inr e ↦ rw e (All-filter p xs h.1)
  ]

  pub All-take : (n : ℕ) (xs : List A) → All P xs → All P (take n xs)
  All-take zero xs h = tt
  All-take (suc n) [] h = tt
  All-take (suc n) (x ∷ xs) h = (h.0, All-take n xs h.1)

  -- A row that is updated keeps the property if the update does.
  pub All-update_where :
      (p : A → Bool) (f : A → A)
      → ((a : A) → P a → P (f a))
      → (xs : List A) → All P xs
      → All P (update_where p f xs)
  All-update_where p f keep [] h = tt
  All-update_where p f keep (x ∷ xs) h = elim (Bool-cases (p x)) [
    | inl e ↦ rw e (keep x h.0, All-update_where p f keep xs h.1)
    | inr e ↦ rw e (h.0, All-update_where p f keep xs h.1)
  ]

pub All-map {ℓ κ} :
    {A : Type 0} {P : A → Type ℓ} {Q : A → Type κ}
    → ((a : A) → P a → Q a)
    → (xs : List A) → All P xs
    → All Q xs
All-map f [] h = tt
All-map f (x ∷ xs) h = (f x h.0, All-map f xs h.1)

module _ {A : Type 0} where
  pub In-append_left : (a : A) (xs ys : List A) → In a xs → In a (xs ++ ys)
  In-append_left a [] ys m = absurd m
  In-append_left a (x ∷ xs) ys (inl e) = inl e
  In-append_left a (x ∷ xs) ys (inr m) = inr (In-append_left a xs ys m)

  pub In-append : (xs ys : List A) (a : A) → In a (xs ++ ys) → In a xs ⊎ In a ys
  In-append [] ys a m = inr m
  In-append (x ∷ xs) ys a (inl e) = inl (inl e)
  In-append (x ∷ xs) ys a (inr m) = elim (In-append xs ys a m) [
    | inl n ↦ inl (inr n)
    | inr n ↦ inr n
  ]

  pub In-append_right : (a : A) (xs ys : List A) → In a ys → In a (xs ++ ys)
  In-append_right a [] ys m = m
  In-append_right a (x ∷ xs) ys m = inr (In-append_right a xs ys m)

  pub In-filter : (p : A → Bool) (xs : List A) {a : A} → In a xs → p a ≡ true → In a (filter p xs)
  In-filter p [] m h = m
  In-filter p (x ∷ xs) (inl e) h = rw (← e, h) (inl refl)
  In-filter p (x ∷ xs) {a} (inr m) h = elim (Bool-cases (p x)) [
    | inl e ↦ rw e (inr (In-filter p xs m h))
    | inr e ↦ rw e (In-filter p xs m h)
  ]

  pub filter-In : (p : A → Bool) (xs : List A) {a : A} → In a (filter p xs) → In a xs × (p a ≡ true)
  filter-In p [] m = absurd m
  filter-In p (x ∷ xs) {a} m = elim (Bool-cases (p x)) [
    | inl e ↦ elim (rw e at m) [
      | inl same_row ↦ (inl same_row, rw same_row e)
      | inr later ↦ let (k, h) = filter-In p xs later in (inr k, h)
    ]
    | inr e ↦ let (k, h) = filter-In p xs (rw e at m) in (inr k, h)
  ]

  -- What is new to a list stays new when another element is there.
  pub still_new :
      (a : A) (seen xs : List A)
      → All (λ x. a ≢ x) xs
      → All (λ x. ¬ In x seen) xs
      → All (λ x. ¬ In x (a ∷ seen)) xs
  still_new a seen [] ne out = tt
  still_new a seen (x ∷ xs) ne out =
      ((λ m. elim m [ inl e ↦ ne.0 (sym e) | inr k ↦ out.0 k ]), still_new a seen xs ne.1 out.1)

  module _ {κ} (R : A → A → Type κ) where
    pub AllPairs-append :
        (xs ys : List A)
        → AllPairs R xs
        → AllPairs R ys
        → All (λ x. All (R x) ys) xs
        → AllPairs R (xs ++ ys)
    AllPairs-append [] ys h k m = k
    AllPairs-append (x ∷ xs) ys h k m =
        (All-append (R x) xs ys h.0 m.0, AllPairs-append xs ys h.1 k m.1)

    pub AllPairs-filter : (p : A → Bool) (xs : List A) → AllPairs R xs → AllPairs R (filter p xs)
    AllPairs-filter p [] h = tt
    AllPairs-filter p (x ∷ xs) h = elim (Bool-cases (p x)) [
      | inl e ↦ rw e (All-filter (R x) p xs h.0, AllPairs-filter p xs h.1)
      | inr e ↦ rw e (AllPairs-filter p xs h.1)
    ]

    pub AllPairs-take : (n : ℕ) (xs : List A) → AllPairs R xs → AllPairs R (take n xs)
    AllPairs-take zero xs h = tt
    AllPairs-take (suc n) [] h = tt
    AllPairs-take (suc n) (x ∷ xs) h = (All-take (R x) n xs h.0, AllPairs-take n xs h.1)

    All-map_image :
        (f : A → A) (x : A)
        → (xs : List A) → ((y : A) → In y xs → R x y → R (f x) (f y))
        → All (R x) xs
        → All (R (f x)) (map f xs)
    All-map_image f x [] k h = tt
    All-map_image f x (y ∷ xs) k h =
        (k y (inl refl) h.0, All-map_image f x xs (λ z m. k z (inr m)) h.1)

    pub AllPairs-map :
        (f : A → A) (xs : List A)
        → ((x y : A) → In x xs → In y xs → R x y → R (f x) (f y))
        → AllPairs R xs
        → AllPairs R (map f xs)
    AllPairs-map f [] k h = tt
    AllPairs-map f (x ∷ xs) k h = (
      All-map_image f x xs (λ y m. k x y (inl refl) (inr m)) h.0,
      AllPairs-map f xs (λ y z m n. k y z (inr m) (inr n)) h.1,
    )
