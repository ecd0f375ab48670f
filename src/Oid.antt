-- ===== src/Oid.antt =====
-- internal/store/database.go: isOIDLess and parseOIDComponent. An OID is a text in dotted decimal; a
-- position in it is the rest of the text from there. An `int` is the bit pattern of an int64, a
-- number below 2 ^ 64, and arithmetic on it wraps.
pub mod Components
pub mod Compare
pub mod Render
pub mod Tests
use go_snmpsim.Prelude.{
  ℕ, zero, suc, ◌+◌, ◌-◌, ◌*◌, ◌%◌, ◌^◌, ◌≡◌, refl, Bool, true, false, not, ◌&&◌, Option, none,
  some, List, [], ◌∷◌, Bytes, codes, is_empty, length, ltb, leb, ◌==◌, if◌then◌else◌,
}

-- `c >= '0' && c <= '9'`
abbrev pub is_digit : ℕ → Bool
is_digit c = leb b'0' c && leb c b'9'

-- `a < b` of int64.
abbrev pub int_less : ℕ → ℕ → Bool
int_less a b = ltb ((a + 2 ^ 63) % 2 ^ 64) ((b + 2 ^ 63) % 2 ^ 64)

-- `num = num*10 + int(oid[i]-'0')`, as long as there are digits.
pub parse_digits : ℕ → Bytes → ℕ × Bytes
parse_digits num [] = (num, [])
parse_digits num (c ∷ s) =
    let rest = parse_digits ((num * 10 + (c - b'0')) % 2 ^ 64) s in
    if is_digit c then rest else (num, c ∷ s)

-- A leading dot is skipped.
pub parse_oid_component : Bytes → ℕ × Bytes
unfolding parse_digits
parse_oid_component [] = (0, [])
parse_oid_component (c ∷ s) = if c == b'.' then parse_digits 0 s else parse_digits 0 (c ∷ s)

-- The loop of `isOIDLess`; `none` if the fuel runs out. The source's loop goes on as long as both
-- positions lie inside their texts, and a position does not move past a byte that is neither a
-- digit nor a dot.
pub less_loop : ℕ → Bytes → Bytes → Option Bool
unfolding parse_oid_component
less_loop zero s t = none
less_loop (suc fuel) [] t = some (not (is_empty t))
less_loop (suc fuel) (c ∷ s) [] = some false
less_loop (suc fuel) (c ∷ s) (d ∷ t) =
    let left = parse_oid_component (c ∷ s) in
    let right = parse_oid_component (d ∷ t) in
    let rest = less_loop fuel left.1 right.1 in
    if left.0 == right.0 then rest else some (int_less left.0 right.0)

abbrev or_false : Option Bool → Bool
or_false none = false
or_false (some b) = b

-- Each round consumes a byte of the first text, if it is in dotted decimal.
unfoldable pub is_oid_less : Bytes → Bytes → Bool
unfolding less_loop
is_oid_less s t = or_false (less_loop (suc (length s)) s t)
