-- ===== src/Strconv/Parts.antt =====
-- OIDs that the program prints, taken apart at their dots.
use go_snmpsim.Prelude.{
  ℕ, ◌^◌, ◌<◌, ◌≡◌, refl, ap, ◌∙◌, Bool, true, false, some, List, [], ◌∷◌, ◌++◌, map, Bytes, All,
  Lacks, arith, ◌==◌,
}
use go_snmpsim.Oid.{is_digit}
use go_snmpsim.Oid.Render.{decimal, render, render_tail, decimal-append, decimal-All, decimal-head}
use go_snmpsim.Strconv.{parse_int, atoi}
use go_snmpsim.Strconv.Decimal.{atoi-decimal}
use go_snmpsim.Strconv.Scan.{split, scan_int, skip_space, scan_number, leading_digits}

-- `split` of a part without separators.
pub split-part : (sep : ℕ) (s : Bytes) → Lacks (λ c. c == sep) s → split sep s ≡ s ∷ []
unfolding split
split-part sep [] h = refl
split-part sep (c ∷ s) h = rw (h.0, split-part sep s h.1)

pub split-append :
    (sep : ℕ) (s t : Bytes) → Lacks (λ c. c == sep) s → split sep (s ++ sep ∷ t) ≡ s ∷ split sep t
unfolding split
split-append sep [] t h = let same : (sep == sep) ≡ true = ground arith in rw same
split-append sep (c ∷ s) t h = rw (h.0, split-append sep s t h.1)

Lacks-of_All : (p : ℕ → Bool) (s : Bytes) → All (λ c. p c ≡ false) s → Lacks p s
Lacks-of_All p [] h = tt
Lacks-of_All p (c ∷ s) h = (h.0, Lacks-of_All p s h.1)

pub decimal-Lacks :
    (p : ℕ → Bool) (n : ℕ) → ((c : ℕ) → is_digit c ≡ true → p c ≡ false) → Lacks p (decimal n [])
decimal-Lacks p n h = Lacks-of_All p (decimal n []) (decimal-All (λ c. p c ≡ false) h n [] tt)

no_dot : (n : ℕ) → Lacks (λ c. c == b'.') (decimal n [])
no_dot n = decimal-Lacks (λ c. c == b'.') n (λ c h. ground arith)

abbrev pub printed : ℕ → Bytes
printed n = decimal n []

-- A printed OID has one part for each number.
pub split-render : (n : ℕ) (ns : List ℕ) → split b'.' (render (n ∷ ns)) ≡ map printed (n ∷ ns)
unfolding render render_tail
split-render n [] = split-part b'.' (decimal n []) (no_dot n)
split-render n (m ∷ ns) =
    rw
      (
        decimal-append n (b'.' ∷ decimal m (render_tail ns)),
        split-append b'.' (decimal n []) (decimal m (render_tail ns)) (no_dot n),
      )
      (ap (λ parts. printed n ∷ parts) (split-render m ns))

leading_digits-all : (s : Bytes) → All (λ c. is_digit c ≡ true) s → leading_digits s ≡ s
unfolding leading_digits
leading_digits-all [] h = refl
leading_digits-all (c ∷ s) h = rw (h.0, leading_digits-all s h.1)

skip_space-digit : (c : ℕ) (s : Bytes) → is_digit c ≡ true → skip_space (c ∷ s) ≡ some (c ∷ s)
unfolding skip_space
skip_space-digit c s h = ground arith

scan_number-digits :
    (c : ℕ) (s : Bytes)
    → All (λ c. is_digit c ≡ true) (c ∷ s)
    → scan_number (c ∷ s) ≡ parse_int 64 (c ∷ s)
unfolding scan_number
scan_number-digits c s h =
    let minus : (c == b'-') ≡ false = ground (arith, h.0) in
    let plus : (c == b'+') ≡ false = ground (arith, h.0) in
    rw (minus, plus, h.0, leading_digits-all s h.1)

scan_int-digits :
    (c : ℕ) (s : Bytes) → All (λ c. is_digit c ≡ true) (c ∷ s) → scan_int (c ∷ s) ≡ atoi (c ∷ s)
unfolding scan_int atoi
scan_int-digits c s h = rw (skip_space-digit c s h.0, scan_int) (scan_number-digits c s h)

-- A number that fits an int is scanned as it was printed.
pub scan_int-decimal : (n : ℕ) → n < 2 ^ 63 → scan_int (decimal n []) ≡ some n
scan_int-decimal n h =
    let (c, s, e, digit) = decimal-head n [] in
    let digits : All (λ c. is_digit c ≡ true) (decimal n []) =
      decimal-All (λ c. is_digit c ≡ true) (λ c d. d) n [] tt in
    rw e (scan_int-digits c s (rw e at digits)) ∙ rw e at (atoi-decimal n h)
