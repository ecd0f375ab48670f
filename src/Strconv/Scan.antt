-- ===== src/Strconv/Scan.antt =====
-- `strings.Split` and `strings.Join` for a separator of one byte, and `fmt.Sscanf` with the format
-- `%d` for one int.
use go_snmpsim.Prelude.{
  ℕ, Option, none, some, List, [], ◌∷◌, ◌++◌, Bytes, is_empty, is_space, ◌==◌, if◌then◌else◌, ◌||◌,
}
use go_snmpsim.Oid.{is_digit}
use go_snmpsim.Strconv.{parse_int, parse_uint}

-- `c` in front of the first part.
abbrev pub in_first : ℕ → List Bytes → List Bytes
in_first c [] = []
in_first c (part ∷ parts) = (c ∷ part) ∷ parts

-- `strings.Split(s, sep)`
unfoldable pub split : ℕ → Bytes → List Bytes
split sep [] = [] ∷ []
split sep (c ∷ s) = let parts = split sep s in if c == sep then [] ∷ parts else in_first c parts

-- `strings.Join(parts, sep)`
unfoldable pub join : ℕ → List Bytes → Bytes
join sep [] = []
join sep (part ∷ []) = part
join sep (part ∷ next ∷ parts) = part ++ sep ∷ join sep (next ∷ parts)

-- `SkipSpace` of a scan that stops at newlines.
unfoldable pub skip_space : Bytes → Option Bytes
skip_space [] = some []
skip_space (c ∷ s) =
    let rest = skip_space s in if c == 10 then none else if is_space c then rest else some (c ∷ s)

unfoldable pub leading_digits : Bytes → Bytes
leading_digits [] = []
leading_digits (c ∷ s) = let rest = leading_digits s in if is_digit c then c ∷ rest else []

-- The text that is left when the spaces are skipped: a sign, and at least one digit.
unfoldable pub scan_number : Bytes → Option ℕ
unfolding leading_digits
scan_number [] = none
scan_number (c ∷ s) =
    if c == b'-' || c == b'+'
    then (if is_empty (leading_digits s) then none else parse_int 64 (c ∷ leading_digits s))
    else (if is_digit c then parse_int 64 (c ∷ leading_digits s) else none)

-- `fmt.Sscanf(s, "%d", &n)`: the int, or `none` for an error. What follows the number is not read.
unfoldable pub scan_int : Bytes → Option ℕ
unfolding skip_space scan_number
scan_int s = elim (skip_space s) [ none ↦ none | some rest ↦ scan_number rest ]

-- `fmt.Sscanf(s, "%d", &n)` for a uint64, which takes no sign.
unfoldable pub scan_uint : Bytes → Option ℕ
unfolding skip_space leading_digits
scan_uint s = elim (skip_space s) [ none ↦ none | some rest ↦ parse_uint 64 (leading_digits rest) ]
