-- ===== src/Strconv/Cuts.antt =====
-- Texts cut at a separator of one byte.
use go_snmpsim.Prelude.{
  ℕ, ◌≡◌, refl, false, Option, none, some, [], ◌∷◌, ◌++◌, Bytes, Lacks, ◌==◌, arith, Option-cases,
  Bool-cases, inl, inr,
}
use go_snmpsim.Strconv.{cut, cut_last, contains_byte}

second_of : {p q r s : Bytes} → ◌≡◌ {A = Option (Bytes × Bytes)} (some (p, r)) (some (q, s)) → r ≡ s
second_of h = cc

module _ (sep : ℕ) where
  abbrev pub Without : Bytes → Type 0
  Without = Lacks (λ c. c == sep)

  pub cut-append : (p rest : Bytes) → Without p → cut sep (p ++ sep ∷ rest) ≡ (p, some rest)
  unfolding cut
  cut-append [] rest h = ground arith
  cut-append (c ∷ p) rest h = rw (cut-append p rest h.1, h.0)

  pub cut-lacking : (p : Bytes) → Without p → cut sep p ≡ (p, none)
  unfolding cut
  cut-lacking [] h = refl
  cut-lacking (c ∷ p) h = rw (cut-lacking p h.1, h.0)

  pub cut_last-lacking : (p : Bytes) → Without p → cut_last sep p ≡ none
  unfolding cut_last
  cut_last-lacking [] h = refl
  cut_last-lacking (c ∷ p) h = rw (cut_last-lacking p h.1, h.0)

  pub cut_last-append :
      (p rest : Bytes) → Without rest → cut_last sep (p ++ sep ∷ rest) ≡ some (p, rest)
  unfolding cut_last
  cut_last-append [] rest h = ground (arith, cut_last-lacking rest h)
  cut_last-append (c ∷ p) rest h = rw (cut_last-append p rest h)

  pub contains_byte-lacking : (s : Bytes) → contains_byte sep s ≡ false → Without s
  unfolding contains_byte
  contains_byte-lacking [] h = tt
  contains_byte-lacking (c ∷ s) h = elim (Bool-cases (c == sep)) [
    | inl e ↦ cc (rw e at h)
    | inr e ↦ (e, contains_byte-lacking s (rw e at h))
  ]

  cut_last-absent : (s : Bytes) → cut_last sep s ≡ none → Without s
  unfolding cut_last
  cut_last-absent [] h = tt
  cut_last-absent (c ∷ s) h = elim (Option-cases (cut_last sep s)) [
    | inr (parts, e) ↦ cc (rw (cut_last, e) at h)
    | inl e ↦ elim (Bool-cases (c == sep)) [
      | inl here ↦ cc (rw (cut_last, e, here) at h)
      | inr not_here ↦ (not_here, cut_last-absent s e)
    ]
  ]

  -- What stands behind the last separator has none.
  pub cut_last-behind :
      (s : Bytes) {p rest : Bytes} → cut_last sep s ≡ some (p, rest) → Without rest
  unfolding cut_last
  cut_last-behind [] h = cc
  cut_last-behind (c ∷ s) {p} {rest} h = elim (Option-cases (cut_last sep s)) [
    | inr ((before, behind), e) ↦
        let same : behind ≡ rest = second_of (rw (cut_last, e) at h) in
        rw (← same) (cut_last-behind s {p = before} {rest = behind} e)
    | inl e ↦ elim (Bool-cases (c == sep)) [
      | inr not_here ↦ cc (rw (cut_last, e, not_here) at h)
      | inl here ↦
          let same : s ≡ rest = second_of (rw (cut_last, e, here) at h) in
          rw (← same) (cut_last-absent s e)
    ]
  ]
