-- ===== src/Int.antt =====
-- Go's signed `int` and `int64`, unbounded where no definition says otherwise, and what a conversion to
-- `float64` and back makes of one.
use bytefetch.Prelude.{
  ℕ, zero, suc, ◌+◌, ◌-◌, ◌*◌, ◌/◌, ◌%◌, ◌^◌, Bool, true, false, ltb, ◌==◌, if◌then◌else◌,
}

-- `negsuc n` is -(n + 1).
pub data ℤ : Type 0 where
  pos : ℕ → ℤ
  negsuc : ℕ → ℤ

-- `x < 0`
abbrev pub is_neg : ℤ → Bool
is_neg (pos n) = false
is_neg (negsuc n) = true

-- The value, with every negative number at 0.
abbrev pub pos_part : ℤ → ℕ
pos_part (pos n) = n
pos_part (negsuc n) = 0

-- The multiple of `step` that is nearest, the even one of two.
unfoldable pub nearest : ℕ → ℕ → ℕ
nearest step n =
    let below = n / step in
    let rest = n % step in
    if ltb (2 * rest) step
    then below * step
    else if ltb step (2 * rest)
    then (below + 1) * step
    else if below % 2 == 0
    then below * step
    else (below + 1) * step

-- The distance between two numbers of 53 bits about `n`, from `step` on: `rounds` doublings are left.
unfoldable pub float_step : ℕ → ℕ → ℕ → ℕ
float_step zero step n = step
float_step (suc rounds) step n =
    let more = float_step rounds (2 * step) n in if ltb n (2 ^ 53 * step) then step else more

-- `float64` of a whole number below 2 ^ 64.
unfoldable pub to_float : ℕ → ℕ
to_float n = nearest (float_step 11 1 n) n

-- `int` of a `float64` that is a whole number. One that does not fit gives the least `int`, on amd64;
-- the language leaves it open.
unfoldable pub int_of_float : ℕ → ℤ
int_of_float n = if ltb n (2 ^ 63) then pos n else negsuc (2 ^ 63 - 1)
