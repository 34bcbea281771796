-- ===== src/Config/Size.antt =====
-- internal/config/config.go: sizes with a unit.
pub mod Units
use bytefetch.Prelude.{
  ℕ, ◌^◌, Text, codes, is_empty, to_upper, trim_space, has_suffix, trim_suffix, Option, none, some,
  List, [], ◌∷◌, if◌then◌else◌,
}
use bytefetch.Int.{ℤ}

-- `float64`: `fmt.Sscanf(s, "%f", &num)`, with `none` for its error, and
-- `int64(num * float64(multiplier))`.
pub record Floats (F : Type 0) : Type 0 where
  pub scan : Text → Option F
  pub scaled : F → ℕ → ℤ

unfoldable pub units : List (Text × ℕ)
units =
    (codes "TB", 2 ^ 40)
    ∷ (codes "GB", 2 ^ 30)
    ∷ (codes "MB", 2 ^ 20)
    ∷ (codes "KB", 2 ^ 10)
    ∷ (codes "B", 1)
    ∷ []

-- The loop over the units: the text without the first that it ends with, and the multiplier.
unfoldable pub split_unit : List (Text × ℕ) → Text → Text × ℕ
split_unit [] s = (s, 1)
split_unit ((suffix, value) ∷ rest) s =
    let next = split_unit rest s in
    if has_suffix s suffix then (trim_suffix s suffix, value) else next

module _ {F : Type 0} (floats : Floats F) where
  abbrev pub scaled_by : ℕ → Option F → Option ℤ
  scaled_by multiplier none = none
  scaled_by multiplier (some num) = some (floats.scaled num multiplier)

  -- `parseByteSize`
  unfoldable pub parse_byte_size : Text → Option ℤ
  parse_byte_size s =
      let text = trim_space (to_upper s) in
      let found = split_unit units text in
      if is_empty text then none else scaled_by found.1 (floats.scan found.0)

  -- The values that the decoder of the settings meets in place of a size: a text, a number, or a
  -- number with a fraction.
  pub data Setting : Type 0 where
    text : Text → Setting
    int : ℤ → Setting
    fraction : F → Setting

  -- `stringToByteSizeHook`
  unfoldable pub byte_size_hook : Setting → Option ℤ
  byte_size_hook (text s) = parse_byte_size s
  byte_size_hook (int n) = some n
  byte_size_hook (fraction f) = some (floats.scaled f 1)
