-- ===== src/Oid/Compare.antt =====
-- internal/store/database.go: `isOIDLess` against the lexicographic order of the numbers.
use go_snmpsim.Prelude.{
  ℕ, zero, suc, ◌+◌, ◌-◌, ◌*◌, ◌%◌, ◌^◌, ◌≤◌, ◌<◌, ◌≡◌, ◌≢◌, refl, inl, inr, true, false, none,
  some, List, [], ◌∷◌, All, Bytes, length, arith, ◌==◌, Bool-cases,
}
use go_snmpsim.Oid.{is_digit, parse_digits, parse_oid_component, less_loop, is_oid_less}
use go_snmpsim.Oid.Components.{
  components_from, components, components_from_head, lex_less, lex_less_irrefl, lex_less_trans,
  IsOidByte, IsOid,
}
use go_snmpsim.Sort.Order.{IsOrder}

abbrev Fits : List ℕ → Type 0
Fits = All (λ n. n < 2 ^ 63)

-- `parseOIDComponent` reads the first number of `s`, and leaves a text that spells the others.
record Reads (ns : List ℕ) (size : ℕ) (r : ℕ × Bytes) : Type 0 where
  spelled : ns ≡ r.0 ∷ components r.1
  bytes : All IsOidByte r.1
  shorter : length r.1 ≤ size

-- One digit more, in front of digits that are read right.
digit-Reads :
    (n c : ℕ) (s : Bytes)
    → is_digit c ≡ true
    → Fits (components_from n (c ∷ s))
    → (let m = n * 10 + (c - b'0') in
        Fits (components_from m s) → Reads (components_from m s) (length s) (parse_digits m s))
    → Reads (components_from n (c ∷ s)) (length s) (parse_digits n (c ∷ s))
unfolding parse_digits components_from
digit-Reads n c s e f ih =
    let m = n * 10 + (c - b'0') in
    let (k, rest, p, q) = components_from_head m s in
    let f' = rw (e, components_from) at f in
    let small : m < 2 ^ 63 = ground (arith, rw p at f') in
    let same : m % 2 ^ 64 ≡ m = omega arith in rw (e, components_from, parse_digits, same) (ih f')

parse_digits-Reads :
    (n : ℕ) (s : Bytes)
    → All IsOidByte s
    → Fits (components_from n s)
    → Reads (components_from n s) (length s) (parse_digits n s)
unfolding parse_digits components_from components
parse_digits-Reads n [] b f = record { spelled = refl; bytes = tt; shorter = omega arith }
parse_digits-Reads n (c ∷ s) (b, bs) f = elim (Bool-cases (is_digit c)) [
  | inl e ↦
      let r = digit-Reads n c s e f (parse_digits-Reads (n * 10 + (c - b'0')) s bs) in
      record { spelled = r.spelled; bytes = r.bytes; shorter = omega (arith, r.shorter) }
  | inr e ↦
      rw (e, components_from, parse_digits)
        (record { spelled = ground arith; bytes = (b, bs); shorter = omega arith })
]

parse_oid_component-Reads :
    (c : ℕ) (s : Bytes)
    → IsOid (c ∷ s)
    → Reads (components (c ∷ s)) (length s) (parse_oid_component (c ∷ s))
unfolding parse_oid_component components
parse_oid_component-Reads c s o = elim (Bool-cases (c == b'.')) [
  | inl dot ↦
      rw (dot, components, parse_oid_component)
        (parse_digits-Reads 0 s o.bytes.1 (rw (dot, components) at o.fits))
  | inr other ↦
      let digit : is_digit c ≡ true = ground arith in
      rw (other, components, parse_oid_component)
        (digit-Reads 0 c s digit (rw (other, components) at o.fits)
          (parse_digits-Reads (0 * 10 + (c - b'0')) s o.bytes.1))
]

-- What is left behind a number is an OID again.
Reads-IsOid :
    {s : Bytes} {size : ℕ} {r : ℕ × Bytes} → IsOid s → Reads (components s) size r → IsOid r.1
Reads-IsOid o h = record { bytes = h.bytes; fits = (rw h.spelled at o.fits).1 }

Reads-fits :
    {s : Bytes} {size : ℕ} {r : ℕ × Bytes} → IsOid s → Reads (components s) size r → r.0 < 2 ^ 63
Reads-fits o h = (rw h.spelled at o.fits).0

components-ne-nil : (d : ℕ) (t : Bytes) → IsOid (d ∷ t) → lex_less [] (components (d ∷ t)) ≡ true
unfolding lex_less
components-ne-nil d t o = rw (parse_oid_component-Reads d t o).spelled

-- The loop ends before its fuel does.
less_loop_lem :
    (fuel : ℕ) (s t : Bytes)
    → length s < fuel
    → IsOid s
    → IsOid t
    → less_loop fuel s t ≡ some (lex_less (components s) (components t))
unfolding less_loop lex_less components
less_loop_lem zero s t h o p = absurd (omega arith)
less_loop_lem (suc fuel) [] [] h o p = refl
less_loop_lem (suc fuel) [] (d ∷ t) h o p = rw (components-ne-nil d t p)
less_loop_lem (suc fuel) (c ∷ s) [] h o p = rw (parse_oid_component-Reads c s o).spelled
less_loop_lem (suc fuel) (c ∷ s) (d ∷ t) h o p =
    let left = parse_oid_component-Reads c s o in
    let right = parse_oid_component-Reads d t p in
    let ih =
      less_loop_lem fuel (parse_oid_component (c ∷ s)).1 (parse_oid_component (d ∷ t)).1
        (omega (arith, left.shorter)) (Reads-IsOid o left) (Reads-IsOid p right) in
    rw (left.spelled, right.spelled) (ground (arith, ih, Reads-fits o left, Reads-fits p right))

-- On texts in dotted decimal whose numbers fit an int64, the loop of `isOIDLess` returns, in at most
-- one round more than its first text has bytes, and its answer is the lexicographic order of the numbers.
pub is_oid_less-lex_less :
    (s t : Bytes)
    → IsOid s
    → IsOid t
    → (less_loop (suc (length s)) s t ≡ some (lex_less (components s) (components t)))
      × (is_oid_less s t ≡ lex_less (components s) (components t))
unfolding is_oid_less
is_oid_less-lex_less s t o p =
    let e = less_loop_lem (suc (length s)) s t (omega arith) o p in (e, rw e)

-- `isOIDLess` is a strict order on texts in dotted decimal whose numbers fit an int64.
pub is_oid_less-IsOrder : IsOrder IsOid is_oid_less
is_oid_less-IsOrder = record {
  irrefl = λ x p. rw (is_oid_less-lex_less x x p p).1 (lex_less_irrefl (components x));
  trans = λ x y z p q r h k. rw (is_oid_less-lex_less x z p r).1 (
      lex_less_trans _ (components y) _ (rw (is_oid_less-lex_less x y p q).1 at h)
        (rw (is_oid_less-lex_less y z q r).1 at k));
}

-- A byte that no component consumes.
abbrev IsStuck : Bytes → Type 0
IsStuck [] = ⊥
IsStuck (c ∷ s) = (is_digit c ≡ false) × (c ≢ b'.')

parse_oid_component_stuck : (s : Bytes) → IsStuck s → parse_oid_component s ≡ (0, s)
unfolding parse_oid_component parse_digits
parse_oid_component_stuck [] h = absurd h
parse_oid_component_stuck (c ∷ s) h = ground arith

-- Where both positions stand at a byte that is neither a digit nor a dot, `isOIDLess` never returns:
-- the loop runs out of fuel, however much it is given.
pub less_loop_diverges :
    (fuel : ℕ) (s t : Bytes) → IsStuck s → IsStuck t → less_loop fuel s t ≡ none
unfolding less_loop
less_loop_diverges zero s t h k = refl
less_loop_diverges (suc fuel) [] t h k = absurd h
less_loop_diverges (suc fuel) (c ∷ s) [] h k = absurd k
less_loop_diverges (suc fuel) (c ∷ s) (d ∷ t) h k =
    rw (parse_oid_component_stuck (c ∷ s) h, parse_oid_component_stuck (d ∷ t) k)
      (less_loop_diverges fuel (c ∷ s) (d ∷ t) h k)
