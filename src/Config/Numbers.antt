-- ===== src/Config/Numbers.antt =====
-- `strconv.Atoi` and `strings.Split`, as v4/config/parse.go uses them, and `itoa` of
-- v4/relay/manager.go.
use relay_x.Prelude.{
  ℕ, zero, suc, ◌+◌, ◌*◌, ◌-◌, ◌/◌, ◌%◌, ◌^◌, Bool, true, false, ◌&&◌, Option, none, some, List, [],
  ◌∷◌, Text, leb, ltb, ◌==◌, if◌then◌else◌,
}
use relay_x.Prelude.Int.{ℤ, pos, negsuc}

abbrev pub is_digit : ℕ → Bool
is_digit c = leb b'0' c && leb c b'9'

-- The value of a run of digits, after the value `acc` of those before.
unfoldable pub digits_from : ℕ → Text → Option ℕ
digits_from acc [] = some acc
digits_from acc (c ∷ s) =
    let rest = digits_from (acc * 10 + (c - b'0')) s in if is_digit c then rest else none

unfoldable pub digits_value : Text → Option ℕ
unfolding digits_from
digits_value [] = none
digits_value (c ∷ s) = digits_from 0 (c ∷ s)

-- A value out of the range of int64 is an error.
abbrev pub in_int64 : Bool → Option ℕ → Option ℤ
in_int64 negative none = none
in_int64 false (some n) = if ltb n (2 ^ 63) then some (pos n) else none
in_int64 true (some zero) = some (pos 0)
in_int64 true (some (suc n)) = if ltb n (2 ^ 63) then some (negsuc n) else none

unfoldable pub atoi : Text → Option ℤ
unfolding digits_value
atoi [] = none
atoi (c ∷ s) =
    if c == b'-'
    then in_int64 true (digits_value s)
    else if c == b'+'
    then in_int64 false (digits_value s)
    else in_int64 false (digits_value (c ∷ s))

-- A new piece begins with the separator, else the first piece grows.
abbrev pub split_at : Bool → ℕ → List Text → List Text
split_at true c parts = [] ∷ parts
split_at false c [] = (c ∷ []) ∷ []
split_at false c (part ∷ parts) = (c ∷ part) ∷ parts

-- `strings.Split`, by a separator of one character.
unfoldable pub split : ℕ → Text → List Text
split sep [] = [] ∷ []
split sep (c ∷ s) = split_at (c == sep) c (split sep s)

-- The loop of `itoa`: with `i` places of its buffer left it gives the places left in the end and the
-- digits. A write in front of the buffer panics, which is `none`.
unfoldable pub itoa_loop : ℕ → ℕ → Text → Option (ℕ × Text)
itoa_loop zero v acc = if v == 0 then some (0, acc) else none
itoa_loop (suc i) v acc =
    let rest = itoa_loop i (v / 10) ((b'0' + v % 10) ∷ acc) in
    if v == 0 then some (suc i, acc) else rest

-- The sign, if there is one.
abbrev pub signed : Bool → Option (ℕ × Text) → Option Text
signed negative none = none
signed false (some (i, s)) = some s
signed true (some (zero, s)) = none
signed true (some (suc i, s)) = some (b'-' ∷ s)

-- `itoa`, for an `int` other than the least one (which Go cannot negate).
unfoldable pub itoa : ℤ → Option Text
unfolding itoa_loop
itoa (pos zero) = some (b'0' ∷ [])
itoa (pos (suc n)) = signed false (itoa_loop 16 (suc n) [])
itoa (negsuc n) = signed true (itoa_loop 16 (suc n) [])
