-- ===== src/Server/Query/Cursor.antt =====
-- internal/server/routes.go: what a query can ask for, and a cursor that comes back.
use bytefetch.Prelude.{
  ◌≢◌, ℕ, zero, suc, ◌+◌, ◌-◌, ◌*◌, ◌/◌, ◌%◌, ◌^◌, ◌<◌, ◌≤◌, ◌≡◌, refl, ap, ◌∙◌, inl, inr, Text,
  true, false, Option, none, some, [], ◌∷◌, ◌++◌, ltb, ltb→lt, lt→ltb, ◌==◌, Bool-cases, arith,
}
use bytefetch.Int.{ℤ, pos, negsuc}
use bytefetch.Server.Query.{
  is_digit, digits_value, unsigned, positive_value, negative_value, parse_int, limit_of,
  not_negative, parse_pagination, decimal_in, decimal, next_cursor_header,
}

abbrev int_limit : ℕ
int_limit = 2 ^ 63

limit_of-bound : (o : Option ℤ) → (0 < limit_of o) × (limit_of o ≤ 500)
unfolding limit_of
limit_of-bound none = (omega arith, omega arith)
limit_of-bound (some (negsuc n)) = (omega arith, omega arith)
limit_of-bound (some (pos n)) = ground arith

digits_value-append :
    (n : ℕ) (s : Text) (d k : ℕ)
    → d < 10
    → digits_value n s ≡ some k
    → digits_value n (s ++ (d + b'0') ∷ []) ≡ some (k * 10 + d)
unfolding digits_value is_digit
digits_value-append n [] d k small h = let e : n ≡ k = cc h in rw e ground arith
digits_value-append n (c ∷ s) d k small h = elim (Bool-cases (is_digit c)) [
  | inl e ↦ rw e (digits_value-append (n * 10 + (c - b'0')) s d k small (rw e at h))
  | inr e ↦ cc (rw e at h)
]

decimal_in-value : (rounds n : ℕ) → n ≤ rounds → digits_value 0 (decimal_in rounds n) ≡ some n
unfolding decimal_in digits_value is_digit
decimal_in-value zero n enough = let z : n ≡ 0 = omega arith in rw z refl
decimal_in-value (suc rounds) n enough = elim (Bool-cases (ltb n 10)) [
  | inl one ↦ rw one ground arith
  | inr more ↦ rw more (
      digits_value-append 0 (decimal_in rounds (n / 10)) (n % 10) (n / 10) (omega arith)
        (decimal_in-value rounds (n / 10) (ground arith))
      ∙ ap some (omega arith))
]

first_digit : (c : ℕ) (s : Text) (n : ℕ) → digits_value 0 (c ∷ s) ≡ some n → is_digit c ≡ true
unfolding digits_value
first_digit c s n h = elim (Bool-cases (is_digit c)) [ inl e ↦ e | inr e ↦ cc (rw e at h) ]

not_sign : (c sign : ℕ) → is_digit c ≡ true → sign < b'0' → (c == sign) ≡ false
unfolding is_digit
not_sign c sign h k = ground arith

-- Digits with a value below the limit are read as that number.
parse_int-digits :
    (s : Text) (n : ℕ)
    → s ≢ []
    → digits_value 0 s ≡ some n
    → n < int_limit
    → parse_int s ≡ some (pos n)
unfolding parse_int unsigned positive_value is_digit
parse_int-digits [] n some_digit h small = absurd (some_digit refl)
parse_int-digits (c ∷ s) n some_digit h small =
    let d = first_digit c s n h in
    rw
      (
        not_sign c b'+' d (omega arith),
        not_sign c b'-' d (omega arith),
        h,
        lt→ltb n int_limit small,
      )
      refl

append-ne : (s : Text) (c : ℕ) → s ++ c ∷ [] ≢ []
append-ne [] c h = cc h
append-ne (d ∷ s) c h = cc h

decimal_in-ne : (rounds n : ℕ) → decimal_in rounds n ≢ []
unfolding decimal_in
decimal_in-ne zero n h = cc h
decimal_in-ne (suc rounds) n h = elim (Bool-cases (ltb n 10)) [
  | inl one ↦ cc (rw one at h)
  | inr more ↦ append-ne (decimal_in rounds (n / 10)) ((n % 10) + b'0') (rw more at h)
]

positive_value-small : (o : Option ℕ) → not_negative (positive_value o) < int_limit
unfolding positive_value not_negative
positive_value-small none = omega arith
positive_value-small (some n) = elim (Bool-cases (ltb n int_limit)) [
  | inl e ↦ rw e (ltb→lt n int_limit e)
  | inr e ↦ rw e omega arith
]

negative_value-small : (o : Option ℕ) → not_negative (negative_value o) < int_limit
unfolding negative_value not_negative
negative_value-small none = omega arith
negative_value-small (some zero) = omega arith
negative_value-small (some (suc n)) = elim (Bool-cases (ltb n int_limit)) [
  | inl e ↦ rw e omega arith
  | inr e ↦ rw e omega arith
]

parse_int-small : (s : Text) → not_negative (parse_int s) < int_limit
unfolding parse_int not_negative
parse_int-small [] = omega arith
parse_int-small (c ∷ s) = elim (Bool-cases (c == b'+')) [
  | inl plus ↦ rw plus (positive_value-small (unsigned s))
  | inr no_plus ↦ elim (Bool-cases (c == b'-')) [
    | inl minus ↦ rw (no_plus, minus) (negative_value-small (unsigned s))
    | inr no_sign ↦ rw (no_plus, no_sign) (positive_value-small (unsigned (c ∷ s)))
  ]
]

header_back :
    (cursor : ℕ) (header : Text)
    → cursor < int_limit
    → next_cursor_header cursor ≡ some header
    → not_negative (parse_int header) ≡ cursor
unfolding next_cursor_header decimal not_negative
header_back cursor header small h = elim (Bool-cases (ltb 0 cursor)) [
  | inl there ↦
      let e : decimal_in cursor cursor ≡ header = cc (rw there at h) in
      let value =
        parse_int-digits (decimal_in cursor cursor) cursor (decimal_in-ne cursor cursor)
          (decimal_in-value cursor cursor (omega arith)) small in
      rw (← e, value) refl
  | inr gone ↦ cc (rw gone at h)
]

-- Whatever the query says, the limit is between 1 and 500, and the offset and the cursor fit an
-- `int64`. The cursor that an export announces in its header, sent back as `after`, is that cursor.
pub parse_pagination_lem :
    (limit offset after : Text) (cursor : ℕ)
    → cursor < 2 ^ 63
    → let q = parse_pagination limit offset after in
      (0 < q.limit)
      × (q.limit ≤ 500)
      × (q.offset < 2 ^ 63)
      × (q.after < 2 ^ 63)
      × ((header : Text)
          → next_cursor_header cursor ≡ some header
          → (parse_pagination limit offset header).after ≡ cursor)
unfolding parse_pagination
parse_pagination_lem limit offset after cursor small =
    let (low, high) = limit_of-bound (parse_int limit) in
    (
      low,
      high,
      parse_int-small offset,
      parse_int-small after,
      λ header h. header_back cursor header small h,
    )
