-- ===== src/SnmprecFormat/Compare.antt =====
-- internal/snmprecfmt/snmprecfmt.go: `CompareOID` against `isOIDLess` of internal/store/database.go.
use go_snmpsim.Prelude.{
  ℕ, ◌^◌, ◌<◌, ◌≡◌, refl, ◌∙◌, true, false, List, [], ◌∷◌, map, Bytes, codes, is_empty, bytes_eq,
  bytes_eq_sound, All, ltb, arith, Bool-cases, inl, inr, ◌==◌,
}
use go_snmpsim.Oid.{int_less, is_oid_less, is_digit}
use go_snmpsim.Oid.Components.{components, lex_less, lex_less_irrefl}
use go_snmpsim.Oid.Compare.{is_oid_less-lex_less}
use go_snmpsim.Oid.Render.{render, render_tail, IsCanonical, decimal-head}
use go_snmpsim.Strconv.Decimal.{atoi-decimal}
use go_snmpsim.Strconv.Scan.{split}
use go_snmpsim.Strconv.Parts.{printed, split-render}
use go_snmpsim.Strconv.Substrings.{trim_prefix}
use go_snmpsim.SnmprecFormat.{sign_of, compare_part, compare_numbers, compare_parts, compare_oid}

abbrev Fits : List ℕ → Type 0
Fits = All (λ n. n < 2 ^ 63)

compare_part-printed :
    (m n : ℕ)
    → m < 2 ^ 63
    → n < 2 ^ 63
    → compare_part (printed m) (printed n) ≡ sign_of (ltb m n) (ltb n m)
unfolding compare_part compare_numbers
compare_part-printed m n h k =
    let up : int_less m n ≡ ltb m n = ground arith in
    let down : int_less n m ≡ ltb n m = ground arith in
    rw (atoi-decimal m h, atoi-decimal n k, up, down)

compare_parts-printed :
    (ms ns : List ℕ)
    → Fits ms
    → Fits ns
    → compare_parts (map printed ms) (map printed ns) ≡ sign_of (lex_less ms ns) (lex_less ns ms)
unfolding compare_parts lex_less
compare_parts-printed [] [] h k = refl
compare_parts-printed [] (n ∷ ns) h k = refl
compare_parts-printed (m ∷ ms) [] h k = refl
compare_parts-printed (m ∷ ms) (n ∷ ns) h k =
    ground (arith, compare_part-printed m n h.0 k.0, compare_parts-printed ms ns h.1 k.1)

no_prefix :
    (t : Bytes) {c : ℕ} {s : Bytes}
    → t ≡ c ∷ s
    → is_digit c ≡ true
    → split b'.' (trim_prefix t (codes ".")) ≡ split b'.' t
unfolding trim_prefix
no_prefix t {c} e digit = let no_dot : (c == b'.') ≡ false = ground arith in rw (e, no_dot)

not_empty : (a : Bytes) → [] ≡ a → is_empty a ≡ false → ⊥
not_empty [] e h = cc
not_empty (c ∷ a) e h = cc

-- A printed OID has no dot in front, and one part for each number.
parts-render :
    (n : ℕ) (ns : List ℕ)
    → split b'.' (trim_prefix (render (n ∷ ns)) (codes ".")) ≡ map printed (n ∷ ns)
parts-render n ns =
    let (c, s, e, digit) = decimal-head n (render_tail ns) in
    no_prefix (render (n ∷ ns)) {c = c} {s = s} (unfold render in e) digit ∙ split-render n ns

parts-components :
    (ns : List ℕ) (a : Bytes)
    → render ns ≡ a
    → is_empty a ≡ false
    → split b'.' (trim_prefix a (codes ".")) ≡ map printed ns
parts-components [] a e h =
    let nothing : [] ≡ a = unfold render in e in absurd (not_empty a nothing h)
parts-components (n ∷ ns) a e h = rw (← e) (parts-render n ns)

-- The comparison of the parts, for texts that differ.
compared_parts :
    (a b : Bytes)
    → IsCanonical a
    → IsCanonical b
    → is_empty a ≡ false
    → is_empty b ≡ false
    → compare_parts
        (split b'.' (trim_prefix a (codes ".")))
        (split b'.' (trim_prefix b (codes ".")))
      ≡ sign_of (is_oid_less a b) (is_oid_less b a)
compared_parts a b c d h k =
    rw
      (
        parts-components (components a) a c.printed h,
        parts-components (components b) b d.printed k,
        (is_oid_less-lex_less a b c.oid d.oid).1,
        (is_oid_less-lex_less b a d.oid c.oid).1,
      )
      (compare_parts-printed (components a) (components b) c.oid.fits d.oid.fits)

-- For OIDs in canonical form that are not empty, `CompareOID` answers by the order of `isOIDLess`:
-- below, above, or neither.
pub compare_oid-is_oid_less :
    (a b : Bytes)
    → IsCanonical a
    → IsCanonical b
    → is_empty a ≡ false
    → is_empty b ≡ false
    → compare_oid a b ≡ sign_of (is_oid_less a b) (is_oid_less b a)
unfolding compare_oid
compare_oid-is_oid_less a b c d h k = elim (Bool-cases (bytes_eq a b)) [
  | inl e ↦ rw (e, bytes_eq_sound a b e, (is_oid_less-lex_less b b d.oid d.oid).1, lex_less_irrefl)
  | inr e ↦ rw e (compared_parts a b c d h k)
]
