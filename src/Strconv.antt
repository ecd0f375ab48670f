-- ===== src/Strconv.antt =====
-- What the source uses of `strconv` and of the splitting functions of `strings`. A Go integer is its
-- bit pattern; a failed call is `none`.
pub mod Decimal
pub mod Scan
pub mod Parts
pub mod Cuts
pub mod Substrings
pub mod Clamped
pub mod Tests
use mathlib.Core.Option
use go_snmpsim.Prelude.{
  ℕ, zero, suc, ◌+◌, ◌-◌, ◌*◌, ◌%◌, ◌^◌, Bool, true, false, ◌&&◌, Option, none, some, List, [], ◌∷◌,
  ◌++◌, Bytes, codes, is_empty, has_prefix, ltb, leb, ◌==◌, if◌then◌else◌,
}
use go_snmpsim.Oid.{is_digit}
use go_snmpsim.Oid.Render.{decimal}

-- The value of digits behind `n`; `none` if another byte is met.
unfoldable pub digits_value : ℕ → Bytes → Option ℕ
digits_value n [] = some n
digits_value n (c ∷ s) =
    let rest = digits_value (n * 10 + (c - b'0')) s in if is_digit c then rest else none

-- `none` for what does not fit.
abbrev at_most : ℕ → Option ℕ → Option ℕ
at_most bound none = none
at_most bound (some n) = if leb n bound then some n else none

-- `strconv.ParseUint(s, 10, bits)`
unfoldable pub parse_uint : ℕ → Bytes → Option ℕ
unfolding digits_value
parse_uint bits [] = none
parse_uint bits (c ∷ s) = at_most (2 ^ bits - 1) (digits_value 0 (c ∷ s))

-- The pattern of a negative number in 64 bits.
abbrev negated : Option ℕ → Option ℕ
negated none = none
negated (some n) = some ((2 ^ 64 - n) % 2 ^ 64)

-- `strconv.ParseInt(s, 10, bits)`, for `bits` at least 1; its result is an int64.
unfoldable pub parse_int : ℕ → Bytes → Option ℕ
unfolding parse_uint
parse_int bits [] = none
parse_int bits (c ∷ s) =
    if c == b'-'
    then negated (at_most (2 ^ (bits - 1)) (parse_uint 64 s))
    else if c == b'+'
    then at_most (2 ^ (bits - 1) - 1) (parse_uint 64 s)
    else at_most (2 ^ (bits - 1) - 1) (parse_uint 64 (c ∷ s))

-- `strconv.Atoi(s)`
unfoldable pub atoi : Bytes → Option ℕ
unfolding parse_int
atoi s = parse_int 64 s

-- The first part of `s` up to a separator, and what follows the separator.
unfoldable pub cut : ℕ → Bytes → Bytes × Option Bytes
cut sep [] = ([], none)
cut sep (c ∷ s) = let rest = cut sep s in if c == sep then ([], some s) else (c ∷ rest.0, rest.1)

-- `strings.SplitN(s, sep, n)`, for a separator of one byte.
unfoldable pub split_n : ℕ → ℕ → Bytes → List Bytes
unfolding cut
split_n zero sep s = []
split_n (suc zero) sep s = s ∷ []
split_n (suc (suc n)) sep s = elim (cut sep s).1 [
  | none ↦ s ∷ []
  | some rest ↦ (cut sep s).0 ∷ split_n (suc n) sep rest
]

-- The parts of `s` before and behind the last separator.
unfoldable pub cut_last : ℕ → Bytes → Option (Bytes × Bytes)
cut_last sep [] = none
cut_last sep (c ∷ s) = elim (cut_last sep s) [
  | some (before, behind) ↦ some (c ∷ before, behind)
  | none ↦ if c == sep then some ([], s) else none
]

-- `strings.Contains(s, sep)`, for one byte.
unfoldable pub contains_byte : ℕ → Bytes → Bool
contains_byte b [] = false
contains_byte b (c ∷ s) = if c == b then true else contains_byte b s

-- `%d` of an int.
unfoldable pub print_int : ℕ → Bytes
print_int n = if ltb n (2 ^ 63) then decimal n [] else b'-' ∷ decimal (2 ^ 64 - n) []
