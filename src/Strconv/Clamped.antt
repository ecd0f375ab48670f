-- ===== src/Strconv/Clamped.antt =====
-- The first result of `strconv.ParseInt`, which callers that drop the error go on with: the nearest
-- number of the width for a number that does not fit, and 0 for a text that is no number.
pub mod Printed
use go_snmpsim.Prelude.{ℕ, ◌+◌, ◌-◌, ◌*◌, ◌%◌, ◌^◌, [], ◌∷◌, Bytes, leb, ◌==◌, if◌then◌else◌}
use go_snmpsim.Oid.{is_digit}

pub data Parsed : Type 0 where
  number : ℕ → Parsed
  range_error syntax_error : Parsed

-- The loop of `ParseUint`, which ends at the first digit that makes the number too large.
unfoldable pub digits_upto : ℕ → ℕ → Bytes → Parsed
digits_upto most n [] = number n
digits_upto most n (c ∷ s) =
    let next = n * 10 + (c - b'0') in
    let rest = digits_upto most next s in
    if is_digit c then (if leb next most then rest else range_error) else syntax_error

-- `ParseUint(s, 10, bits)`
pub parse_digits : ℕ → Bytes → Parsed
unfolding digits_upto
parse_digits bits [] = syntax_error
parse_digits bits (c ∷ s) = digits_upto (2 ^ bits - 1) 0 (c ∷ s)

abbrev pub at_most_or : ℕ → Parsed → ℕ
at_most_or most syntax_error = 0
at_most_or most range_error = most
at_most_or most (number n) = if leb n most then n else most

-- `val, _ := strconv.ParseInt(s, 10, bits)`, for `bits` at least 1: the bit pattern of `val`.
unfoldable pub parse_int_value : ℕ → Bytes → ℕ
unfolding parse_digits
parse_int_value bits [] = 0
parse_int_value bits (c ∷ s) =
    if c == b'-'
    then (2 ^ 64 - at_most_or (2 ^ (bits - 1)) (parse_digits bits s)) % 2 ^ 64
    else if c == b'+'
    then at_most_or (2 ^ (bits - 1) - 1) (parse_digits bits s)
    else at_most_or (2 ^ (bits - 1) - 1) (parse_digits bits (c ∷ s))
