-- ===== src/Strconv/Tests.antt =====
-- The number parsers at concrete texts.
use go_snmpsim.Prelude.{◌≡◌, ◌↔◌, ◌≤◌, ◌-◌, ◌^◌, refl, [], none, some, codes, arith}
use go_snmpsim.Oid.Render.{decimal}
use go_snmpsim.Strconv.{parse_uint, digits_value, parse_int, atoi}
use go_snmpsim.Strconv.Decimal.{IsDigits, spelled, parse_uint_exact, atoi-decimal}

too_large : parse_uint 32 (codes "4294967296") ≡ none
unfolding parse_uint digits_value
too_large = refl

negative : parse_int 32 (codes "-1") ≡ some 18446744073709551615
unfolding parse_int parse_uint digits_value
negative = refl

parse_uint_exact_example :
    (parse_uint 32 (codes "12") ≡ some 12)
    ↔ (IsDigits (codes "12") × (12 ≡ spelled 0 (codes "12")) × (12 ≤ 2 ^ 32 - 1))
parse_uint_exact_example = parse_uint_exact 32 b'1' (codes "2") 12

atoi-decimal_example : atoi (decimal 1161 []) ≡ some 1161
atoi-decimal_example = atoi-decimal 1161 (omega arith)
