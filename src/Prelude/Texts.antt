-- ===== src/Prelude/Texts.antt =====
-- Go strings as lists of bytes, with the functions of package `strings` that the program calls.
-- Letters and white space are those of ASCII: any other byte is left alone.
use Prim.Native.Nat.{ℕ, ◌+◌, ◌-◌}
use Prim.Native.Char.{code}
use Prim.Native.String.{String}
use mathlib.Core.Path.{◌≡◌, refl}
use mathlib.Core.Logic.{◌↔◌, ◌≢◌}
use mathlib.Core.Bool.{Bool, true, false, ◌&&◌, ◌||◌}
use mathlib.Core.List.{List, [], ◌∷◌, map, reverse}
use native.Mathlib.Omega.{arith}
use mathlib.Core.Logic.{inl, inr}
use bytefetch.Prelude.Tests.{leb, ◌==◌, if◌then◌else◌, Bool-cases}
use bytefetch.Prelude.Lists.{length, take, drop, any}
use bytefetch.Prelude.Predicates.{In}

abbrev pub Text : Type 0
Text = List ℕ

-- The bytes of an ASCII literal.
abbrev pub codes : String → Text
codes String.[] = []
codes (String.◌∷◌ c s) = code c ∷ codes s

-- `s == t`
unfoldable pub same : Text → Text → Bool
same [] [] = true
same (a ∷ s) (b ∷ t) = a == b && same s t
same _ _ = false

pub same_iff : (s t : Text) → (same s t ≡ true) ↔ (s ≡ t)
unfolding same
same_iff [] [] = ((λ h. refl), (λ h. refl))
same_iff (a ∷ s) (b ∷ t) = ground (arith, same_iff s t)
same_iff _ _ = ground arith

pub same_refl : (s : Text) → same s s ≡ true
same_refl s = (same_iff s s).1 refl

pub ne_of_same : (s t : Text) → same s t ≡ false → s ≢ t
ne_of_same s t h e = ground (arith, same_iff s t)

pub same_of_ne : (s t : Text) → s ≢ t → same s t ≡ false
same_of_ne s t h = ground (arith, same_iff s t)

abbrev pub is_empty : Text → Bool
is_empty [] = true
is_empty (c ∷ s) = false

pub is_empty-false : (f : Text) → f ≢ [] → is_empty f ≡ false
is_empty-false [] h = absurd (h refl)
is_empty-false (c ∷ f) h = refl

pub is_empty_iff : (s : Text) → (is_empty s ≡ false) ↔ (s ≢ [])
is_empty_iff [] = ((λ h. absurd (cc h)), (λ h. absurd (h refl)))
is_empty_iff (c ∷ s) = ((λ h e. cc e), (λ h. refl))

-- Membership in a `map[string]struct{}`, kept as the list of its keys.
unfoldable pub has : List Text → Text → Bool
has seen s = any (same s) seen

pub has_iff : (seen : List Text) (s : Text) → (has seen s ≡ true) ↔ In s seen
unfolding has
has_iff [] s = ((λ h. cc), (λ m. absurd m))
has_iff (t ∷ seen) s = ground (arith, same_iff s t, has_iff seen s)

pub not-In_of_has : (seen : List Text) (s : Text) → has seen s ≡ false → ¬ In s seen
not-In_of_has seen s h m = ground (arith, (has_iff seen s).1 m)

pub not_has : (seen : List Text) (f : Text) → ¬ In f seen → has seen f ≡ false
not_has seen f out = elim (Bool-cases (has seen f)) [
  | inl e ↦ absurd (out ((has_iff seen f).0 e))
  | inr e ↦ e
]

unfoldable pub lower_byte : ℕ → ℕ
lower_byte c = if leb b'A' c && leb c b'Z' then c + 32 else c

-- `strings.ToLower`
unfoldable pub to_lower : Text → Text
unfolding lower_byte
to_lower = map lower_byte

unfoldable pub upper_byte : ℕ → ℕ
upper_byte c = if leb b'a' c && leb c b'z' then c - 32 else c

-- `strings.ToUpper`
unfoldable pub to_upper : Text → Text
unfolding upper_byte
to_upper = map upper_byte

pub lower_byte_idem : (c : ℕ) → lower_byte (lower_byte c) ≡ lower_byte c
unfolding lower_byte
lower_byte_idem c = ground arith

pub to_lower_idem : (s : Text) → to_lower (to_lower s) ≡ to_lower s
unfolding to_lower
to_lower_idem [] = refl
to_lower_idem (c ∷ s) = cc (lower_byte_idem c, to_lower_idem s)

abbrev pub starts_with : Text → Text → Bool
starts_with s [] = true
starts_with [] (c ∷ t) = false
starts_with (d ∷ s) (c ∷ t) = c == d && starts_with s t

-- `strings.HasSuffix(s, t)`
unfoldable pub has_suffix : Text → Text → Bool
has_suffix s t = leb (length t) (length s) && same (drop (length s - length t) s) t

-- `strings.TrimSuffix(s, t)`
unfoldable pub trim_suffix : Text → Text → Text
unfolding has_suffix
trim_suffix s t = if has_suffix s t then take (length s - length t) s else s

-- `strings.Contains(s, t)`
unfoldable pub contains : Text → Text → Bool
contains [] t = is_empty t
contains (c ∷ s) t = starts_with (c ∷ s) t || contains s t

unfoldable pub is_space : ℕ → Bool
is_space c = c == 32 || (leb 9 c && leb c 13)

unfoldable pub trim_left : Text → Text
trim_left [] = []
trim_left (c ∷ s) = let rest = trim_left s in if is_space c then rest else c ∷ s

-- `strings.TrimSpace`
unfoldable pub trim_space : Text → Text
unfolding trim_left is_space
trim_space s = reverse (trim_left (reverse (trim_left s)))
