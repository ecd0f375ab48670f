-- ===== src/Oid/Render.antt =====
-- OIDs as the program prints them: numbers in decimal (`%d`), with dots between them.
use go_snmpsim.Prelude.{
  ◌==◌, ℕ, zero, suc, ◌+◌, ◌-◌, ◌*◌, ◌/◌, ◌%◌, ◌^◌, ◌<◌, ◌≡◌, refl, sym, ◌∙◌, ap, true, false, List,
  [], ◌∷◌, ◌++◌, inl, inr, All, Bytes, arith, ltb, Bool-cases,
}
use go_snmpsim.Oid.{is_digit, is_oid_less}
use go_snmpsim.Oid.Components.{components_from, components, lex_less_total, IsOidByte, IsOid}
use go_snmpsim.Oid.Compare.{is_oid_less-lex_less}

-- The digits of `n`, in front of `out`.
digits_loop : ℕ → ℕ → Bytes → Bytes
digits_loop zero n out = out
digits_loop (suc fuel) n out = elim (ltb n 10) [
  | true ↦ (b'0' + n) ∷ out
  | false ↦ digits_loop fuel (n / 10) ((b'0' + n % 10) ∷ out)
]

-- `%d` of a number that is not negative, with a text behind it.
unfoldable pub decimal : ℕ → Bytes → Bytes
unfolding digits_loop
decimal n out = digits_loop (suc n) n out

digits_loop-append :
    (fuel n : ℕ) (out t : Bytes) → digits_loop fuel n (out ++ t) ≡ digits_loop fuel n out ++ t
unfolding digits_loop
digits_loop-append zero n out t = refl
digits_loop-append (suc fuel) n out t = elim (Bool-cases (ltb n 10)) [
  | inl e ↦ rw (e, digits_loop)
  | inr e ↦ rw (e, digits_loop) (digits_loop-append fuel (n / 10) ((b'0' + n % 10) ∷ out) t)
]

-- A number is printed in front of what stands behind it.
pub decimal-append : (n : ℕ) (out : Bytes) → decimal n out ≡ decimal n [] ++ out
unfolding decimal
decimal-append n out = digits_loop-append (suc n) n [] out

-- Numbers with a dot before each.
unfoldable pub render_tail : List ℕ → Bytes
render_tail [] = []
render_tail (n ∷ ns) = b'.' ∷ decimal n (render_tail ns)

unfoldable pub render : List ℕ → Bytes
render [] = []
render (n ∷ ns) = decimal n (render_tail ns)

components_from_digit :
    (n d : ℕ) (out : Bytes)
    → d < 10
    → components_from n ((b'0' + d) ∷ out) ≡ components_from (n * 10 + d) out
unfolding components_from
components_from_digit n d out h =
    let digit : is_digit (b'0' + d) ≡ true = ground arith in
    let value : b'0' + d - b'0' ≡ d = omega arith in rw (digit, components_from, value)

-- What reads a digit as ten times the number before it and the digit reads a printed number.
module _ {ℓ} {X : Type ℓ} (read : ℕ → Bytes → X)
    (digit : (n d : ℕ) (out : Bytes)
      → d < 10
      → read n ((b'0' + d) ∷ out) ≡ read (n * 10 + d) out) where
  read-digits_loop :
      (fuel n : ℕ) (out : Bytes) → n < fuel → read 0 (digits_loop fuel n out) ≡ read n out
  unfolding digits_loop
  read-digits_loop zero n out h = absurd (omega arith)
  read-digits_loop (suc fuel) n out h = elim (Bool-cases (ltb n 10)) [
    | inl e ↦
        let value : 0 * 10 + n ≡ n = omega arith in
        rw (e, digits_loop) (digit 0 n out (ground arith) ∙ ap (λ k. read k out) value)
    | inr e ↦
        let value : n / 10 * 10 + n % 10 ≡ n = omega arith in
        rw (e, digits_loop)
          (read-digits_loop fuel (n / 10) ((b'0' + n % 10) ∷ out) (ground arith)
            ∙ digit (n / 10) (n % 10) out (omega arith)
            ∙ ap (λ k. read k out) value)
  ]

  pub read-decimal : (n : ℕ) (out : Bytes) → read 0 (decimal n out) ≡ read n out
  unfolding decimal
  read-decimal n out = read-digits_loop (suc n) n out (omega arith)

-- A printed number is digits, at least one.
abbrev StartsWithDigit : Bytes → Type 0
StartsWithDigit [] = ⊥
StartsWithDigit (c ∷ s) = is_digit c ≡ true

digits_loop-starts :
    (fuel n : ℕ) (out : Bytes) → n < fuel → StartsWithDigit (digits_loop fuel n out)
unfolding digits_loop
digits_loop-starts zero n out h = absurd (omega arith)
digits_loop-starts (suc fuel) n out h = elim (Bool-cases (ltb n 10)) [
  | inl e ↦ rw (e, digits_loop) (ground arith)
  | inr e ↦
      rw (e, digits_loop) (digits_loop-starts fuel (n / 10) ((b'0' + n % 10) ∷ out) (ground arith))
]

-- What holds of each digit holds of each byte that is printed.
module _ {κ} (P : ℕ → Type κ) (digits : (c : ℕ) → is_digit c ≡ true → P c) where
  digits_loop-All :
      (fuel n : ℕ) (out : Bytes) → n < fuel → All P out → All P (digits_loop fuel n out)
  unfolding digits_loop
  digits_loop-All zero n out h o = absurd (omega arith)
  digits_loop-All (suc fuel) n out h o = elim (Bool-cases (ltb n 10)) [
    | inl e ↦ rw (e, digits_loop) (digits _ (ground arith), o)
    | inr e ↦
        rw (e, digits_loop)
          (digits_loop-All fuel (n / 10) ((b'0' + n % 10) ∷ out) (ground arith)
            (digits _ (ground arith), o))
  ]

  pub decimal-All : (n : ℕ) (out : Bytes) → All P out → All P (decimal n out)
  unfolding decimal
  decimal-All n out o = digits_loop-All (suc n) n out (omega arith) o

components_of_digits : (s : Bytes) → StartsWithDigit s → components s ≡ components_from 0 s
unfolding components
components_of_digits [] h = absurd h
components_of_digits (c ∷ s) h = ground arith

pub decimal-components_from :
    (n : ℕ) (out : Bytes) → components_from 0 (decimal n out) ≡ components_from n out
decimal-components_from = read-decimal components_from components_from_digit

components_from-render_tail : (n : ℕ) (ns : List ℕ) → components_from n (render_tail ns) ≡ n ∷ ns
unfolding components_from render_tail
components_from-render_tail n [] = refl
components_from-render_tail n (m ∷ ns) =
    ap (◌∷◌ n) (decimal-components_from m (render_tail ns) ∙ components_from-render_tail m ns)

render_tail-bytes : (ns : List ℕ) → All IsOidByte (render_tail ns)
unfolding render_tail
render_tail-bytes [] = tt
render_tail-bytes (n ∷ ns) =
    (inr refl, decimal-All IsOidByte (λ c h. inl h) n (render_tail ns) (render_tail-bytes ns))

render-digits :
    (n : ℕ) (ns : List ℕ) → StartsWithDigit (render (n ∷ ns)) × All IsOidByte (render (n ∷ ns))
unfolding render decimal
render-digits n ns = (
  digits_loop-starts (suc n) n (render_tail ns) (omega arith),
  decimal-All IsOidByte (λ c h. inl h) n (render_tail ns) (render_tail-bytes ns),
)

-- A printed OID is read back as the numbers that were printed.
pub components-render : (ns : List ℕ) → components (render ns) ≡ ns
components-render [] = unfold components render in refl
components-render (n ∷ ns) =
    components_of_digits (render (n ∷ ns)) (render-digits n ns).0
    ∙ unfold render in
      (decimal-components_from n (render_tail ns) ∙ components_from-render_tail n ns)

-- A printed OID is in dotted decimal.
pub render-IsOid : (ns : List ℕ) → All (λ n. n < 2 ^ 63) ns → IsOid (render ns)
render-IsOid [] h = unfold components render in record { bytes = tt; fits = tt }
render-IsOid (n ∷ ns) h = record {
  bytes = (render-digits n ns).1;
  fits = rw (components-render (n ∷ ns)) h;
}

-- A text in the form that the program prints: no dot in front, no zeros in front of a number.
pub record IsCanonical (s : Bytes) : Type 0 where
  pub oid : IsOid s
  pub printed : render (components s) ≡ s

pub render-IsCanonical : (ns : List ℕ) → All (λ n. n < 2 ^ 63) ns → IsCanonical (render ns)
render-IsCanonical ns h = record { oid = render-IsOid ns h; printed = rw components-render }

-- Two OIDs in canonical form of which `isOIDLess` puts neither first are one text.
pub is_oid_less_total :
    (s t : Bytes)
    → IsCanonical s
    → IsCanonical t
    → is_oid_less s t ≡ false
    → is_oid_less t s ≡ false
    → s ≡ t
is_oid_less_total s t c d h k =
    let same =
      lex_less_total (components s) (components t)
        (sym (is_oid_less-lex_less s t c.oid d.oid).1 ∙ h)
        (sym (is_oid_less-lex_less t s d.oid c.oid).1 ∙ k) in
    sym c.printed ∙ ap render same ∙ d.printed

pub decimal-head :
    (n : ℕ) (out : Bytes) → (c : ℕ) × (s : Bytes) × (decimal n out ≡ c ∷ s) × (is_digit c ≡ true)
unfolding decimal
decimal-head n out =
    starts (digits_loop (suc n) n out) (digits_loop-starts (suc n) n out (omega arith))
  where
    starts :
        (t : Bytes) → StartsWithDigit t → (c : ℕ) × (s : Bytes) × (t ≡ c ∷ s) × (is_digit c ≡ true)
    starts [] h = absurd h
    starts (c ∷ s) h = (c, s, refl, h)

-- A text in canonical form has no dot in front.
pub IsCanonical-no_dot : (c : ℕ) (s : Bytes) → IsCanonical (c ∷ s) → (c == b'.') ≡ false
IsCanonical-no_dot c s k = go (components (c ∷ s)) k.printed
  where
    go : (ns : List ℕ) → render ns ≡ c ∷ s → (c == b'.') ≡ false
    go [] e = unfold render in cc
    go (n ∷ ns) e = let digit : is_digit c ≡ true = rw e at (render-digits n ns).0 in ground arith
