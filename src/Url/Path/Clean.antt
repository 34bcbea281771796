-- ===== src/Url/Path/Clean.antt =====
-- What a cleaned path looks like, and that cleaning it again changes nothing.
use bytefetch.Prelude.{
  ℕ, ◌≡◌, ◌≢◌, refl, sym, ap, ◌∙◌, inl, inr, Text, same, same_of_ne, ne_of_same, is_empty, Bool,
  true, false, ◌||◌, List, [], ◌∷◌, ◌++◌, reverse, ◌==◌, Bool-cases, All, All-append, arith,
}
use mathlib.Core.List.{reverse-cons, append_assoc, append-nil}
use bytefetch.Url.Path.{
  slash, dot, dotdot, cons_head, split_slash, join_slash, backtrack, push_part, resolve_parts,
}

abbrev pub NoSlash : Text → Type 0
NoSlash = All (λ c. c ≢ slash)

-- A part of a clean path from the root: not empty, neither `.` nor `..`, and without a slash.
abbrev pub IsPlain : Text → Type 0
IsPlain p = (p ≢ []) × (p ≢ dot) × (p ≢ dotdot) × NoSlash p

cons_head-NoSlash :
    (c : ℕ) (ps : List Text) → c ≢ slash → All NoSlash ps → All NoSlash (cons_head c ps)
unfolding cons_head
cons_head-NoSlash c [] ne h = ((ne, tt), tt)
cons_head-NoSlash c (p ∷ ps) ne h = ((ne, h.0), h.1)

pub split_slash-NoSlash : (s : Text) → All NoSlash (split_slash s)
unfolding split_slash
split_slash-NoSlash [] = (tt, tt)
split_slash-NoSlash (c ∷ s) = elim (Bool-cases (c == slash)) [
  | inl at_slash ↦ rw at_slash (tt, split_slash-NoSlash s)
  | inr other ↦
      rw other (cons_head-NoSlash c (split_slash s) (λ e. ground arith) (split_slash-NoSlash s))
]

is_empty_iff : (s : Text) → is_empty s ≡ false → s ≢ []
is_empty_iff [] h e = cc
is_empty_iff (c ∷ s) h e = cc

not_slash : (c : ℕ) → c ≢ slash → (c == slash) ≡ false
not_slash c ne = ground arith

backtrack-IsPlain : (stack : List Text) → All IsPlain stack → All IsPlain (backtrack true stack)
unfolding backtrack
backtrack-IsPlain [] h = tt
backtrack-IsPlain (p ∷ stack) h = rw (same_of_ne p dotdot h.0.2) h.1

or_false : (a b : Bool) → (a || b) ≡ false → (a ≡ false) × (b ≡ false)
or_false a b h = ground arith

-- What the pushing of a part does, by the kind of the part.
IsPlain-of_tests :
    (part : Text)
    → (is_empty part || same part dot) ≡ false
    → same part dotdot ≡ false
    → NoSlash part
    → IsPlain part
IsPlain-of_tests part e f n =
    let (g, h) = or_false (is_empty part) (same part dot) e in
    (is_empty_iff part g, ne_of_same part dot h, ne_of_same part dotdot f, n)

push_part-IsPlain :
    (stack : List Text) (part : Text)
    → All IsPlain stack
    → NoSlash part
    → All IsPlain (push_part true stack part)
unfolding push_part
push_part-IsPlain stack part h n = elim (Bool-cases (is_empty part || same part dot)) [
  | inl skip ↦ rw skip h
  | inr word ↦ elim (Bool-cases (same part dotdot)) [
    | inl up ↦ rw (word, up) (backtrack-IsPlain stack h)
    | inr name ↦ rw (word, name) (IsPlain-of_tests part word name n, h)
  ]
]

All-reverse : (P : Text → Type 0) (xs : List Text) → All P xs → All P (reverse xs)
All-reverse P [] h = tt
All-reverse P (x ∷ xs) h =
    rw (reverse-cons x xs) (All-append P (reverse xs) (x ∷ []) (All-reverse P xs h.1) (h.0, tt))

pub resolve_parts-IsPlain :
    (stack parts : List Text)
    → All IsPlain stack
    → All NoSlash parts
    → All IsPlain (resolve_parts true stack parts)
unfolding resolve_parts
resolve_parts-IsPlain stack [] h n = All-reverse IsPlain stack h
resolve_parts-IsPlain stack (part ∷ parts) h n =
    resolve_parts-IsPlain (push_part true stack part) parts (push_part-IsPlain stack part h n.0) n.1

push_part_plain :
    (rooted : Bool) (stack : List Text) (part : Text)
    → IsPlain part
    → push_part rooted stack part ≡ part ∷ stack
unfolding push_part
push_part_plain rooted stack [] h = absurd (h.0 refl)
push_part_plain rooted stack (c ∷ part) h =
    rw (same_of_ne (c ∷ part) dot h.1, same_of_ne (c ∷ part) dotdot h.2)

-- Plain parts are kept as they are.
pub resolve_parts_plain :
    (rooted : Bool) (stack parts : List Text)
    → All IsPlain parts
    → resolve_parts rooted stack parts ≡ reverse stack ++ parts
unfolding resolve_parts
resolve_parts_plain rooted stack [] h = sym (append-nil (reverse stack))
resolve_parts_plain rooted stack (part ∷ parts) h =
    ap (λ s. resolve_parts rooted s parts) (push_part_plain rooted stack part h.0)
    ∙ resolve_parts_plain rooted (part ∷ stack) parts h.1
    ∙ simp (reverse-cons, append_assoc)

split_slash-append :
    (p : Text) (s : Text) → NoSlash p → split_slash (p ++ slash ∷ s) ≡ p ∷ split_slash s
unfolding split_slash cons_head
split_slash-append [] s n = refl
split_slash-append (c ∷ p) s n = rw (not_slash c n.0, split_slash-append p s n.1)

split_slash-part : (p : Text) → NoSlash p → split_slash p ≡ p ∷ []
unfolding split_slash cons_head
split_slash-part [] n = refl
split_slash-part (c ∷ p) n = rw (not_slash c n.0, split_slash-part p n.1)

-- The parts of a path that was joined are those that it was joined from.
pub split_slash-join_slash :
    (p : Text) (ps : List Text) → All NoSlash (p ∷ ps) → split_slash (join_slash (p ∷ ps)) ≡ p ∷ ps
unfolding join_slash
split_slash-join_slash p [] n = split_slash-part p n.0
split_slash-join_slash p (q ∷ ps) n =
    split_slash-append p (join_slash (q ∷ ps)) n.0 ∙ ap (◌∷◌ p) (split_slash-join_slash q ps n.1)
