-- ===== src/Config/Size/Units.antt =====
-- internal/config/config.go: what the unit of a size says.
use bytefetch.Prelude.{
  ℕ, ◌-◌, ◌^◌, ◌≤◌, ◌<◌, ◌≡◌, refl, sym, ap, ◌∙◌, ◌⊎◌, inl, inr, Text, codes, is_empty, same,
  same_iff, has_suffix, trim_space, to_upper, false, Bool-cases, some, List, [], ◌∷◌, ◌++◌, length,
  take, drop, take-append-drop, In, arith,
}
use mathlib.Core.List.{append_assoc, append-nil}
use bytefetch.Prelude.Suffix.{has_suffix-append, trim_suffix-append}
use bytefetch.Config.Size.{Floats, units, split_unit, parse_byte_size}

last_byte : ℕ → Text → ℕ
last_byte c [] = c
last_byte c (d ∷ s) = last_byte d s

last_byte-append : (c : ℕ) (m : Text) (d : ℕ) → last_byte c (m ++ d ∷ []) ≡ d
unfolding last_byte
last_byte-append c [] d = refl
last_byte-append c (e ∷ m) d = last_byte-append e m d

last_byte-two : (c : ℕ) (m : Text) (a b : ℕ) → last_byte c (m ++ a ∷ b ∷ []) ≡ b
unfolding last_byte
last_byte-two c [] a b = refl
last_byte-two c (e ∷ m) a b = last_byte-two e m a b

-- A text does not end with a unit of two letters whose last one is another byte.
no_unit : (m : Text) (d a b : ℕ) → ¬ (d ≡ b) → has_suffix (m ++ d ∷ []) (a ∷ b ∷ []) ≡ false
unfolding has_suffix
no_unit m d a b ne = elim (Bool-cases (has_suffix (m ++ d ∷ []) (a ∷ b ∷ []))) [
  | inr e ↦ e
  | inl e ↦
      let s = m ++ d ∷ [] in
      let k = length s - 2 in
      let tail : drop k s ≡ a ∷ b ∷ [] = (same_iff (drop k s) (a ∷ b ∷ [])).0 (ground (arith, e)) in
      let whole : m ++ d ∷ [] ≡ take k s ++ a ∷ b ∷ [] =
        sym (take-append-drop k s) ∙ ap (λ t. take k s ++ t) tail in
      absurd (
        ne (sym (last_byte-append 0 m d) ∙ ap (last_byte 0) whole ∙ last_byte-two 0 (take k s) a b))
]

-- A byte of a number: a digit or the point.
abbrev pub IsNumeral : ℕ → Type 0
IsNumeral c = (c ≡ b'.') ⊎ ((b'0' ≤ c) × (c ≤ b'9'))

module _ (m : Text) where
  split_tb : split_unit units (m ++ codes "TB") ≡ (m, 2 ^ 40)
  unfolding units split_unit same
  split_tb =
      rw (has_suffix-append m (codes "TB") (codes "TB") refl, trim_suffix-append m (codes "TB"))
        refl

  split_gb : split_unit units (m ++ codes "GB") ≡ (m, 2 ^ 30)
  unfolding units split_unit same
  split_gb =
      rw
        (
          has_suffix-append m (codes "GB") (codes "TB") refl,
          has_suffix-append m (codes "GB") (codes "GB") refl,
          trim_suffix-append m (codes "GB"),
        )
        refl

  split_mb : split_unit units (m ++ codes "MB") ≡ (m, 2 ^ 20)
  unfolding units split_unit same
  split_mb =
      rw
        (
          has_suffix-append m (codes "MB") (codes "TB") refl,
          has_suffix-append m (codes "MB") (codes "GB") refl,
          has_suffix-append m (codes "MB") (codes "MB") refl,
          trim_suffix-append m (codes "MB"),
        )
        refl

  split_kb : split_unit units (m ++ codes "KB") ≡ (m, 2 ^ 10)
  unfolding units split_unit same
  split_kb =
      rw
        (
          has_suffix-append m (codes "KB") (codes "TB") refl,
          has_suffix-append m (codes "KB") (codes "GB") refl,
          has_suffix-append m (codes "KB") (codes "MB") refl,
          has_suffix-append m (codes "KB") (codes "KB") refl,
          trim_suffix-append m (codes "KB"),
        )
        refl

module _ (n : Text) (d : ℕ) (k : IsNumeral d) where
  -- The byte before a plain `B` starts no longer unit.
  one_letter : (a : ℕ) → b'9' < a → has_suffix ((n ++ d ∷ []) ++ codes "B") (a ∷ codes "B") ≡ false
  unfolding same
  one_letter a h =
      rw append_assoc (has_suffix-append n (d ∷ codes "B") (a ∷ codes "B") refl ∙ ground arith)

  split_b : split_unit units ((n ++ d ∷ []) ++ codes "B") ≡ (n ++ d ∷ [], 1)
  unfolding units split_unit same
  split_b =
      rw
        (
          one_letter b'T' (omega arith),
          one_letter b'G' (omega arith),
          one_letter b'M' (omega arith),
          one_letter b'K' (omega arith),
          has_suffix-append (n ++ d ∷ []) (codes "B") (codes "B") refl,
          trim_suffix-append (n ++ d ∷ []) (codes "B"),
        )
        refl

  split_none : split_unit units (n ++ d ∷ []) ≡ (n ++ d ∷ [], 1)
  unfolding units split_unit same
  split_none =
      let ne : ¬ (d ≡ b'B') = λ e. ground arith in
      let other : same (d ∷ []) (codes "B") ≡ false = ground arith in
      rw
        (
          no_unit n d b'T' b'B' ne,
          no_unit n d b'G' b'B' ne,
          no_unit n d b'M' b'B' ne,
          no_unit n d b'K' b'B' ne,
          has_suffix-append n (d ∷ []) (codes "B") refl,
          other,
        )
        refl

-- The units that a size may have, and none.
abbrev pub with_none : List (Text × ℕ)
with_none = ([], 1) ∷ units

append-unit :
    (n : Text) (d : ℕ) (k : IsNumeral d) (unit : Text × ℕ)
    → In unit with_none
    → split_unit units ((n ++ d ∷ []) ++ unit.0) ≡ (n ++ d ∷ [], unit.1)
unfolding units
append-unit n d k unit (inl e) = rw (e, append-nil) (split_none n d k)
append-unit n d k unit (inr (inl e)) = rw e (split_tb (n ++ d ∷ []))
append-unit n d k unit (inr (inr (inl e))) = rw e (split_gb (n ++ d ∷ []))
append-unit n d k unit (inr (inr (inr (inl e)))) = rw e (split_mb (n ++ d ∷ []))
append-unit n d k unit (inr (inr (inr (inr (inl e))))) = rw e (split_kb (n ++ d ∷ []))
append-unit n d k unit (inr (inr (inr (inr (inr (inl e)))))) = rw e (split_b n d k)
append-unit n d k unit (inr (inr (inr (inr (inr (inr x)))))) = absurd x

not_empty : (n t : Text) (d : ℕ) → is_empty ((n ++ d ∷ []) ++ t) ≡ false
not_empty [] t d = refl
not_empty (c ∷ n) t d = refl

-- A size that is, without spaces around it and in upper case, a number that ends with a digit or a
-- point and then `B`, `KB`, `MB`, `GB`, `TB` or nothing, is that number times the power of 1024 that
-- the unit stands for, whatever `Sscanf` and the product of the number are.
pub parse_byte_size_lem :
    {F : Type 0} (floats : Floats F) (s n : Text) (d : ℕ) (num : F) (unit : Text × ℕ)
    → trim_space (to_upper s) ≡ (n ++ d ∷ []) ++ unit.0
    → IsNumeral d
    → In unit with_none
    → floats.scan (n ++ d ∷ []) ≡ some num
    → parse_byte_size floats s ≡ some (floats.scaled num unit.1)
unfolding parse_byte_size
parse_byte_size_lem floats s n d num unit h k m scanned =
    rw (h, append-unit n d k unit m, scanned, not_empty n unit.0 d) refl
