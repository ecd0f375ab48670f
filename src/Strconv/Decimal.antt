-- ===== src/Strconv/Decimal.antt =====
-- Numbers in decimal, printed and read by `strconv`.
use go_snmpsim.Prelude.{
  ℕ, ◌+◌, ◌-◌, ◌*◌, ◌^◌, ◌≤◌, ◌<◌, ◌≡◌, refl, sym, ◌↔◌, ◌∙◌, ap, true, Option, none, some, [], ◌∷◌,
  Bytes, All, arith,
}
use go_snmpsim.Oid.{is_digit}
use go_snmpsim.Oid.Render.{decimal, read-decimal, decimal-head}
use go_snmpsim.Strconv.{digits_value, at_most, parse_uint, atoi}

abbrev pub IsDigits : Bytes → Type 0
IsDigits = All (λ c. is_digit c ≡ true)

-- The number that digits spell behind `n`.
abbrev pub spelled : ℕ → Bytes → ℕ
spelled n [] = n
spelled n (c ∷ s) = spelled (n * 10 + (c - b'0')) s

digits_value-spelled : (n : ℕ) (s : Bytes) → IsDigits s → digits_value n s ≡ some (spelled n s)
unfolding digits_value
digits_value-spelled n [] h = refl
digits_value-spelled n (c ∷ s) h = ground (arith, digits_value-spelled (n * 10 + (c - b'0')) s h.1)

digits_value_sound :
    (n : ℕ) (s : Bytes) {m : ℕ} → digits_value n s ≡ some m → IsDigits s × (m ≡ spelled n s)
unfolding digits_value
digits_value_sound n [] h = ground arith
digits_value_sound n (c ∷ s) {m} h =
    ground (arith, digits_value_sound (n * 10 + (c - b'0')) s {m = m})

digits_value_digit :
    (n d : ℕ) (out : Bytes)
    → d < 10
    → digits_value n ((b'0' + d) ∷ out) ≡ digits_value (n * 10 + d) out
unfolding digits_value
digits_value_digit n d out h =
    let digit : is_digit (b'0' + d) ≡ true = ground arith in
    let value : b'0' + d - b'0' ≡ d = omega arith in rw (digit, value)

digits_value-decimal : (n : ℕ) → digits_value 0 (decimal n []) ≡ some n
unfolding digits_value
digits_value-decimal n = read-decimal digits_value digits_value_digit n []

at_most_iff : (bound m : ℕ) (o : Option ℕ) → at_most bound o ≡ some m ↔ ((o ≡ some m) × (m ≤ bound))
at_most_iff bound m none = (λ h. cc, λ h. cc)
at_most_iff bound m (some n) = (λ h. ground arith, λ h. ground arith)

-- `ParseUint` accepts exactly the non-empty texts of digits whose value fits the width, and returns
-- their value.
pub parse_uint_exact :
    (bits : ℕ) (c : ℕ) (s : Bytes) (m : ℕ)
    → let t = c ∷ s in
      (parse_uint bits t ≡ some m) ↔ (IsDigits t × (m ≡ spelled 0 t) × (m ≤ 2 ^ bits - 1))
unfolding parse_uint
parse_uint_exact bits c s m =
    let t = c ∷ s in
    let fits = at_most_iff (2 ^ bits - 1) m (digits_value 0 t) in
    (
      λ h.
          let (read, small) = fits.0 h in
          let (digits, value) = digits_value_sound 0 t {m = m} read in (digits, value, small),
      λ (digits, value, small).
          fits.1 (digits_value-spelled 0 t digits ∙ ap some (sym value), small),
    )

parse_uint_of_head :
    (bits : ℕ) (t : Bytes) {c : ℕ} {s : Bytes}
    → t ≡ c ∷ s
    → parse_uint bits t ≡ at_most (2 ^ bits - 1) (digits_value 0 t)
unfolding parse_uint
parse_uint_of_head bits t e = rw e

parse_uint-decimal : (bits n : ℕ) → n ≤ 2 ^ bits - 1 → parse_uint bits (decimal n []) ≡ some n
parse_uint-decimal bits n h =
    let (c, s, printed, digit) = decimal-head n [] in
    parse_uint_of_head bits (decimal n []) printed
    ∙ (at_most_iff (2 ^ bits - 1) n (digits_value 0 (decimal n []))).1 (digits_value-decimal n, h)

atoi_of_digit :
    (t : Bytes) {c : ℕ} {s : Bytes}
    → t ≡ c ∷ s
    → is_digit c ≡ true
    → atoi t ≡ at_most (2 ^ 63 - 1) (parse_uint 64 t)
unfolding atoi
atoi_of_digit t e d = rw e (ground arith)

-- A number that fits an int is read back from its print.
pub atoi-decimal : (n : ℕ) → n < 2 ^ 63 → atoi (decimal n []) ≡ some n
atoi-decimal n h =
    let (c, s, printed, digit) = decimal-head n [] in
    atoi_of_digit (decimal n []) printed digit
    ∙ (at_most_iff (2 ^ 63 - 1) n (parse_uint 64 (decimal n []))).1
        (parse_uint-decimal 64 n (omega arith), omega arith)
