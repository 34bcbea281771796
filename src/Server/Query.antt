-- ===== src/Server/Query.antt =====
-- internal/server/routes.go: the limit, the offset and the cursor of a request's query. The limits
-- of `int` and `int64` are those of 64 bits.
pub mod Cursor
use bytefetch.Prelude.{
  ℕ, zero, suc, ◌+◌, ◌-◌, ◌*◌, ◌/◌, ◌%◌, ◌^◌, Text, Bool, true, false, ◌&&◌, Option, none, some, [],
  ◌∷◌, ◌++◌, leb, ltb, ◌==◌, if◌then◌else◌,
}
use bytefetch.Int.{ℤ, pos, negsuc}

unfoldable pub is_digit : ℕ → Bool
is_digit c = leb b'0' c && leb c b'9'

-- The value of the digits after those that make `n`; `none` where some byte is no digit.
unfoldable pub digits_value : ℕ → Text → Option ℕ
digits_value n [] = some n
digits_value n (c ∷ s) =
    let rest = digits_value (n * 10 + (c - b'0')) s in if is_digit c then rest else none

-- At least one digit.
unfoldable pub unsigned : Text → Option ℕ
unsigned [] = none
unsigned (c ∷ s) = digits_value 0 (c ∷ s)

unfoldable pub positive_value : Option ℕ → Option ℤ
positive_value none = none
positive_value (some n) = if ltb n (2 ^ 63) then some (pos n) else none

unfoldable pub negative_value : Option ℕ → Option ℤ
negative_value none = none
negative_value (some zero) = some (pos 0)
negative_value (some (suc n)) = if ltb n (2 ^ 63) then some (negsuc n) else none

-- `strconv.ParseInt(s, 10, 64)`, and `strconv.Atoi`; `none` is an error.
unfoldable pub parse_int : Text → Option ℤ
parse_int [] = none
parse_int (c ∷ s) =
    if c == b'+'
    then positive_value (unsigned s)
    else if c == b'-'
    then negative_value (unsigned s)
    else positive_value (unsigned (c ∷ s))

pub record Pagination : Type 0 where
  pub limit : ℕ
  pub offset : ℕ
  pub after : ℕ

unfoldable pub limit_of : Option ℤ → ℕ
limit_of (some (pos n)) = if ltb 0 n && leb n 500 then n else 50
limit_of _ = 50

unfoldable pub not_negative : Option ℤ → ℕ
not_negative (some (pos n)) = n
not_negative _ = 0

-- `parsePaginationAndCursor`; a value that is missing is the empty text.
unfoldable pub parse_pagination : Text → Text → Text → Pagination
unfolding limit_of not_negative
parse_pagination limit offset after = record {
  limit = limit_of (parse_int limit);
  offset = not_negative (parse_int offset);
  after = not_negative (parse_int after);
}

-- The digits of `n`, as `fmt.Sprintf("%d", n)` writes them; `n` rounds are enough after the first.
unfoldable pub decimal_in : ℕ → ℕ → Text
decimal_in zero n = (n % 10 + b'0') ∷ []
decimal_in (suc rounds) n =
    let rest = decimal_in rounds (n / 10) in
    if ltb n 10 then (n + b'0') ∷ [] else rest ++ ((n % 10 + b'0') ∷ [])

unfoldable pub decimal : ℕ → Text
decimal n = decimal_in n n

-- The header `X-Next-Cursor` of an export that ends at the cursor; `none` where it is not set.
unfoldable pub next_cursor_header : ℕ → Option Text
next_cursor_header cursor = if ltb 0 cursor then some (decimal cursor) else none
