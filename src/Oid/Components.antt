-- ===== src/Oid/Components.antt =====
-- The numbers that a text in dotted decimal spells, and their order.
use go_snmpsim.Prelude.{
  ℕ, ◌+◌, ◌-◌, ◌*◌, ◌^◌, ◌≤◌, ◌<◌, ◌≡◌, refl, ◌⊎◌, inl, inr, Bool, true, false, List, [], ◌∷◌, All,
  Bytes, arith, ltb, ◌==◌, if◌then◌else◌, Bool-cases,
}
use go_snmpsim.Oid.{is_digit}

-- The numbers of a text, of which the first has the digits of `n` behind it already.
unfoldable pub components_from : ℕ → Bytes → List ℕ
components_from n [] = n ∷ []
components_from n (c ∷ s) =
    let end = n ∷ components_from 0 s in
    let more = components_from (n * 10 + (c - b'0')) s in if is_digit c then more else end

-- A dot in front is left out; the empty text has no numbers.
unfoldable pub components : Bytes → List ℕ
unfolding components_from
components [] = []
components (c ∷ s) = if c == b'.' then components_from 0 s else components_from 0 (c ∷ s)

-- The lexicographic order.
unfoldable pub lex_less : List ℕ → List ℕ → Bool
lex_less [] [] = false
lex_less [] (y ∷ ys) = true
lex_less (x ∷ xs) [] = false
lex_less (x ∷ xs) (y ∷ ys) = if x == y then lex_less xs ys else ltb x y

pub lex_less_irrefl : (xs : List ℕ) → lex_less xs xs ≡ false
unfolding lex_less
lex_less_irrefl [] = refl
lex_less_irrefl (x ∷ xs) = ground (arith, lex_less_irrefl xs)

pub lex_less_trans :
    (xs ys zs : List ℕ) → lex_less xs ys ≡ true → lex_less ys zs ≡ true → lex_less xs zs ≡ true
unfolding lex_less
lex_less_trans [] [] zs h k = cc
lex_less_trans [] (y ∷ ys) [] h k = cc
lex_less_trans [] (y ∷ ys) (z ∷ zs) h k = refl
lex_less_trans (x ∷ xs) [] zs h k = cc
lex_less_trans (x ∷ xs) (y ∷ ys) [] h k = cc
lex_less_trans (x ∷ xs) (y ∷ ys) (z ∷ zs) h k = ground (arith, lex_less_trans xs ys zs)

-- Two lists of which neither is below the other are equal.
pub lex_less_total : (xs ys : List ℕ) → lex_less xs ys ≡ false → lex_less ys xs ≡ false → xs ≡ ys
unfolding lex_less
lex_less_total [] [] h k = refl
lex_less_total [] (y ∷ ys) h k = cc
lex_less_total (x ∷ xs) [] h k = cc
lex_less_total (x ∷ xs) (y ∷ ys) h k = ground (arith, lex_less_total xs ys)

-- Digits and dots.
abbrev pub IsOidByte : ℕ → Type 0
IsOidByte c = (is_digit c ≡ true) ⊎ (c ≡ b'.')

-- A text in dotted decimal, whose numbers fit an int64.
pub record IsOid (s : Bytes) : Type 0 where
  pub bytes : All IsOidByte s
  pub fits : All (λ n. n < 2 ^ 63) (components s)

-- The first number is at least what its digits so far spell.
pub components_from_head :
    (n : ℕ) (s : Bytes) → (m : ℕ) × (rest : List ℕ) × (components_from n s ≡ m ∷ rest) × (n ≤ m)
unfolding components_from
components_from_head n [] = (n, [], refl, omega arith)
components_from_head n (c ∷ s) = elim (Bool-cases (is_digit c)) [
  | inl e ↦
      let (m, rest, p, q) = components_from_head (n * 10 + (c - b'0')) s in
      (m, rest, rw (e, components_from) p, omega arith)
  | inr e ↦ (n, components_from 0 s, rw (e, components_from), omega arith)
]
