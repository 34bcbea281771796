-- ===== src/Tests/Sizes.antt =====
-- A size that the settings of internal/config give with its unit, and whole numbers as a `float64`.
use bytefetch.Prelude.{
  ℕ, ◌*◌, ◌≡◌, refl, inl, inr, Text, codes, trim_left, trim_space, is_space, to_upper, upper_byte,
  some, [], ◌∷◌, ◌++◌, arith,
}
use bytefetch.Int.{pos, negsuc, to_float, nearest, float_step, int_of_float}
use bytefetch.Config.Size.{Floats, units, parse_byte_size}
use bytefetch.Config.Size.Units.{parse_byte_size_lem}
use bytefetch.Server.Query.{is_digit, digits_value, unsigned}

-- Whole numbers in place of `float64`.
abbrev whole : Floats ℕ
whole = record { scan = unsigned; scaled = λ n m. pos (n * m) }

abbrev given : Text
given = codes " 10kb"

upper : trim_space (to_upper given) ≡ (codes "1" ++ b'0' ∷ []) ++ codes "KB"
unfolding trim_space trim_left is_space to_upper upper_byte
upper = refl

ten : unsigned (codes "1" ++ b'0' ∷ []) ≡ some 10
unfolding unsigned digits_value is_digit
ten = refl

parse_byte_size_lem_example : parse_byte_size whole given ≡ some (pos 10240)
unfolding units
parse_byte_size_lem_example =
    parse_byte_size_lem whole given (codes "1") b'0' 10 (codes "KB", 1024) upper
      (inr (omega arith, omega arith)) (inr (inr (inr (inr (inl refl))))) ten

-- Above 2 ^ 53 the even neighbour, and no `int` for the greatest of them.
rounded :
    (to_float 9007199254740993 ≡ 9007199254740992)
    × (to_float 9007199254740995 ≡ 9007199254740996)
    × (to_float 41 ≡ 41)
    × (int_of_float (to_float 9223372036854775807) ≡ negsuc 9223372036854775807)
unfolding to_float nearest float_step int_of_float
rounded = (refl, refl, refl, refl)
