-- ===== src/Variation/Values.antt =====
-- internal/variation/variation.go: numbers and times, and the values of an answer as numbers.
use go_snmpsim.Prelude.{
  ℕ, ◌+◌, ◌-◌, ◌/◌, ◌%◌, ◌^◌, Bool, true, false, Option, none, some, ltb, leb, if◌then◌else◌,
}
use go_snmpsim.Snmp.{
  Asn1Ber, counter32, gauge32, timeticks, uinteger32, counter64, Value, nil, string, int, int32,
  int64, uint, uint32, uint64,
}

-- The patterns of negative int64.
abbrev pub negative : ℕ → Bool
negative n = leb (2 ^ 63) n

-- `-n` of an int64.
abbrev pub minus : ℕ → ℕ
minus n = (2 ^ 64 - n) % 2 ^ 64

abbrev magnitude : ℕ → ℕ
magnitude n = if negative n then 2 ^ 64 - n else n

-- `n / d` of int64, which rounds towards zero; `d` is not zero.
unfoldable pub int_quotient : ℕ → ℕ → ℕ
int_quotient n d =
    let q = magnitude n / magnitude d in
    elim (negative n) [
      | true ↦ elim (negative d) [ true ↦ q % 2 ^ 64 | false ↦ minus q ]
      | false ↦ elim (negative d) [ true ↦ minus q | false ↦ q ]
    ]

-- `t.Sub(u)`, which stops at the ends of the int64.
unfoldable pub time_sub : ℕ → ℕ → ℕ
time_sub t u =
    if leb u t
    then (if ltb (t - u) (2 ^ 63) then t - u else 2 ^ 63 - 1)
    else (if leb (u - t) (2 ^ 63) then 2 ^ 64 - (u - t) else 2 ^ 63)

unfoldable pub to_int64 : Value → Option ℕ
to_int64 (int x) = some (x % 2 ^ 64)
to_int64 (int32 x) = some (if ltb x (2 ^ 31) then x else (x + (2 ^ 64 - 2 ^ 32)) % 2 ^ 64)
to_int64 (int64 x) = some (x % 2 ^ 64)
to_int64 (uint x) = some (x % 2 ^ 64)
to_int64 (uint32 x) = some (x % 2 ^ 64)
to_int64 (uint64 x) = if ltb (2 ^ 63 - 1) x then none else some (x % 2 ^ 64)
to_int64 nil = none
to_int64 (string s) = none

cast_uint32 : ℕ → Value
cast_uint32 n = uint32 (if negative n then 0 else n % 2 ^ 32)

unfoldable pub cast_by_type : Asn1Ber → ℕ → Value
unfolding cast_uint32
cast_by_type counter32 n = cast_uint32 n
cast_by_type gauge32 n = cast_uint32 n
cast_by_type timeticks n = cast_uint32 n
cast_by_type uinteger32 n = cast_uint32 n
cast_by_type counter64 n = uint64 (if negative n then 0 else n)
cast_by_type ber n = int64 n
