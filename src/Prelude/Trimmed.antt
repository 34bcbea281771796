-- ===== src/Prelude/Trimmed.antt =====
-- Lower case and white space.
use Prim.Native.Nat.{ℕ}
use mathlib.Core.Path.{◌≡◌, refl, sym, ap, ◌∙◌, subst}
use mathlib.Core.Logic.{inl, inr}
use mathlib.Core.List.{[], ◌∷◌, ◌++◌, map, reverse, reverse_aux, reverse-append, reverse-reverse}
use native.Mathlib.Omega.{arith}
use bytefetch.Prelude.Tests.{Bool-cases}
use bytefetch.Prelude.Lists.{length, length-append}
use bytefetch.Prelude.Texts.{Text, lower_byte, to_lower, is_space, trim_left, trim_space}

is_space-lower_byte : (c : ℕ) → is_space (lower_byte c) ≡ is_space c
unfolding is_space lower_byte
is_space-lower_byte c = ground arith

trim_left-to_lower : (s : Text) → trim_left (to_lower s) ≡ to_lower (trim_left s)
unfolding trim_left to_lower
trim_left-to_lower [] = refl
trim_left-to_lower (c ∷ s) = elim (Bool-cases (is_space c)) [
  | inl e ↦ rw (is_space-lower_byte c, e) (trim_left-to_lower s)
  | inr e ↦ rw (is_space-lower_byte c, e) refl
]

reverse_aux-map :
    (f : ℕ → ℕ) (s t : Text) → reverse_aux (map f s) (map f t) ≡ map f (reverse_aux s t)
reverse_aux-map f [] t = refl
reverse_aux-map f (c ∷ s) t = reverse_aux-map f s (c ∷ t)

reverse-to_lower : (s : Text) → reverse (to_lower s) ≡ to_lower (reverse s)
unfolding to_lower
reverse-to_lower s = reverse_aux-map lower_byte s []

pub trim_space-to_lower : (s : Text) → trim_space (to_lower s) ≡ to_lower (trim_space s)
unfolding trim_space
trim_space-to_lower s = cc (
  trim_left-to_lower s,
  reverse-to_lower (trim_left s),
  trim_left-to_lower (reverse (trim_left s)),
  reverse-to_lower (trim_left (reverse (trim_left s))),
)

trim_left_idem : (s : Text) → trim_left (trim_left s) ≡ trim_left s
unfolding trim_left
trim_left_idem [] = refl
trim_left_idem (c ∷ s) = elim (Bool-cases (is_space c)) [
  | inl e ↦ rw e (trim_left_idem s)
  | inr e ↦ rw (e, e) refl
]

-- What `trim_left` drops stood in front.
trim_left-suffix : (s : Text) → (p : Text) × (s ≡ p ++ trim_left s)
unfolding trim_left
trim_left-suffix [] = ([], refl)
trim_left-suffix (c ∷ s) = elim (Bool-cases (is_space c)) [
  | inl e ↦ let (p, k) = trim_left-suffix s in rw e (c ∷ p, ap (λ t. c ∷ t) k)
  | inr e ↦ rw e ([], refl)
]

-- The start of a text with no space in front has none.
trim_left-prefix : (s t : Text) → trim_left (s ++ t) ≡ s ++ t → trim_left s ≡ s
unfolding trim_left
trim_left-prefix [] t h = refl
trim_left-prefix (c ∷ s) t h = elim (Bool-cases (is_space c)) [
  | inl e ↦
      let (p, k) = trim_left-suffix (s ++ t) in
      let n = ap length k in
      let m = ap length (rw e at h) in
      let l = length-append p (trim_left (s ++ t)) in absurd (omega arith)
  | inr e ↦ rw e refl
]

pub trim_space_idem : (s : Text) → trim_space (trim_space s) ≡ trim_space s
unfolding trim_space
trim_space_idem s =
    let r = reverse (trim_left s) in
    let t = reverse (trim_left r) in
    let (p, k) = trim_left-suffix r in
    let whole : trim_left s ≡ t ++ reverse p =
      sym (reverse-reverse (trim_left s)) ∙ ap reverse k ∙ reverse-append p (trim_left r) in
    let front : trim_left t ≡ t =
      trim_left-prefix t (reverse p) (subst (λ u. trim_left u ≡ u) whole (trim_left_idem s)) in
    ap (λ u. reverse (trim_left (reverse u))) front
    ∙ ap (λ u. reverse (trim_left u)) (reverse-reverse (trim_left r))
    ∙ ap reverse (trim_left_idem r)
