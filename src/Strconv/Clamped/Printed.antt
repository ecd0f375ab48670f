-- ===== src/Strconv/Clamped/Printed.antt =====
-- What a caller that drops the error of `strconv.ParseInt` reads of a printed number.
use go_snmpsim.Prelude.{
  ℕ, ◌+◌, ◌-◌, ◌*◌, ◌^◌, ◌≤◌, ◌≡◌, refl, ap, ◌∙◌, true, false, [], ◌∷◌, Bytes, arith, leb, ◌==◌,
  if◌then◌else◌,
}
use go_snmpsim.Oid.{is_digit}
use go_snmpsim.Oid.Render.{decimal, read-decimal, decimal-head, decimal-All}
use go_snmpsim.Strconv.Decimal.{IsDigits, spelled}
use go_snmpsim.Strconv.Clamped.{number, digits_upto, parse_digits, at_most_or, parse_int_value}

spelled-le : (n : ℕ) (s : Bytes) → n ≤ spelled n s
spelled-le n [] = omega arith
spelled-le n (c ∷ s) = omega (arith, spelled-le (n * 10 + (c - b'0')) s)

digits_upto-spelled :
    (most n : ℕ) (s : Bytes)
    → IsDigits s
    → spelled n s ≤ most
    → digits_upto most n s ≡ number (spelled n s)
unfolding digits_upto
digits_upto-spelled most n [] h k = refl
digits_upto-spelled most n (c ∷ s) h k =
    let next = n * 10 + (c - b'0') in
    ground (arith, h.0, spelled-le next s, digits_upto-spelled most next s h.1 k)

spelled-decimal : (n : ℕ) → spelled 0 (decimal n []) ≡ n
spelled-decimal n =
    read-decimal spelled (λ n d out h. let value : b'0' + d - b'0' ≡ d = omega arith in rw value) n
      []

-- Of digits that fit, the number is cut off at the greatest int of the width.
parse_int_value-digits :
    (bits c : ℕ) (s : Bytes)
    → IsDigits (c ∷ s)
    → spelled 0 (c ∷ s) ≤ 2 ^ bits - 1
    → parse_int_value bits (c ∷ s) ≡ at_most_or (2 ^ (bits - 1) - 1) (number (spelled 0 (c ∷ s)))
unfolding parse_int_value parse_digits
parse_int_value-digits bits c s h k =
    let minus : (c == b'-') ≡ false = ground (arith, h.0) in
    let plus : (c == b'+') ≡ false = ground (arith, h.0) in
    rw (minus, plus)
      (ap (at_most_or (2 ^ (bits - 1) - 1)) (digits_upto-spelled (2 ^ bits - 1) 0 (c ∷ s) h k))

-- A number of the unsigned width is read as it was printed, up to the greatest signed one.
pub parse_int_value-decimal :
    (bits n : ℕ)
    → n ≤ 2 ^ bits - 1
    → parse_int_value bits (decimal n [])
      ≡ (if leb n (2 ^ (bits - 1) - 1) then n else 2 ^ (bits - 1) - 1)
parse_int_value-decimal bits n h =
    let (c, s, e, digit) = decimal-head n [] in
    let digits : IsDigits (decimal n []) =
      decimal-All (λ c. is_digit c ≡ true) (λ c d. d) n [] tt in
    let spells : spelled 0 (decimal n []) ≡ n = spelled-decimal n in
    let spells' : spelled 0 (c ∷ s) ≡ n = rw e at spells in
    rw e (
      parse_int_value-digits bits c s (rw e at digits) (rw spells' h)
      ∙ ap (λ k. at_most_or (2 ^ (bits - 1) - 1) (number k)) spells')
