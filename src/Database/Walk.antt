-- ===== src/Database/Walk.antt =====
-- internal/store/database.go: a walk by repeated `GetNext`.
use go_snmpsim.Prelude.{
  get_or_past, drop-get_or, drop_all, ℕ, zero, suc, ◌-◌, ◌≤◌, ◌<◌, ◌≡◌, refl, ap, List, [], ◌∷◌,
  Bytes, is_empty, All, All-get_or, length, get_or, drop, arith, true, false, Bool-cases, inl, inr,
  ℕ_trichotomy, ltb, ltb→lt, text_eq,
}
use go_snmpsim.Oid.{is_oid_less}
use go_snmpsim.Oid.Render.{IsCanonical, render-IsCanonical, render}
use go_snmpsim.Positions.Ascending.{Before, IsAscending, Before_irrefl, Before-asym, entries-Before}
use go_snmpsim.Database.{OidDatabase, get_next}
use go_snmpsim.Database.Next.{IsNext, entry, end_of_mib, get_next-IsNext}

-- The entry that `GetNext` returns, where its place is known.
module _ (xs : List Bytes) (target answer : Bytes) (n : IsNext xs target answer) (k : ℕ)
    (before : (j : ℕ) → j < k → j < length xs → is_oid_less target (get_or xs j []) ≡ false)
    (here : k < length xs → Before target (get_or xs k [])) where
  IsNext-at : answer ≡ get_or xs k []
  IsNext-at = go n
    where
      go : IsNext xs target answer → answer ≡ get_or xs k []
      go (entry i h e b others) = elim (ℕ_trichotomy i k) [
        | inl lt ↦ ground (arith, before i lt h)
        | inr (inl same) ↦ rw (← same) e
        | inr (inr gt) ↦ ground (arith, here (omega arith), others k gt)
      ]
      go (end_of_mib e others) = elim (Bool-cases (ltb k (length xs))) [
        | inl inside ↦ ground (arith, here (ltb→lt _ _ inside), others k (ltb→lt _ _ inside))
        | inr outside ↦ rw (get_or_past xs k [] (ground arith)) e
      ]

-- What a client sees that asks for the next OID until it gets the empty text.
pub next_oids : ℕ → OidDatabase → Bytes → List Bytes
next_oids zero odb oid = []
next_oids (suc fuel) odb oid =
    let next = get_next odb oid in
    elim (is_empty next) [ true ↦ [] | false ↦ next ∷ next_oids fuel odb next ]

module _ (odb : OidDatabase) (a : IsAscending odb.sorted_oids) where
  abbrev oids : List Bytes
  oids = odb.sorted_oids

  abbrev at : ℕ → Bytes
  at i = get_or oids i []

  canonical : (i : ℕ) → i < length oids → IsCanonical (at i)
  canonical i h = All-get_or [] IsCanonical oids i a.canonical h

  -- From the entry at `k` on, `GetNext` goes to the entry behind it.
  pub get_next-at : (k : ℕ) → k < length oids → get_next odb (at k) ≡ at (suc k)
  get_next-at k h =
      let c = canonical k h in
      IsNext-at oids (at k) (get_next odb (at k)) (get_next-IsNext odb a (at k) c) (suc k)
        (λ j lt inside. elim (ℕ_trichotomy j k) [
          | inl less ↦
              Before-asym (at j) (at k) (canonical j inside) c
                (entries-Before oids a (at k) c j k less h)
          | inr (inl same) ↦ rw same (Before_irrefl (at k) c)
          | inr (inr gt) ↦ absurd (omega arith)
        ])
        (λ lt. entries-Before oids a (at k) c k (suc k) (omega arith) lt)

  module _ (named : All (λ s. is_empty s ≡ false) oids) where
    at-named : (k : ℕ) → k < length oids → is_empty (at k) ≡ false
    at-named k h = All-get_or [] (λ s. is_empty s ≡ false) oids k named h

    next_oids-drop :
        (fuel k : ℕ) (oid : Bytes)
        → length oids - k < fuel
        → get_next odb oid ≡ at k
        → next_oids fuel odb oid ≡ drop k oids
    unfolding next_oids
    next_oids-drop zero k oid h e = absurd (omega arith)
    next_oids-drop (suc fuel) k oid h e = elim (Bool-cases (ltb k (length oids))) [
      | inl more ↦
          let lt = ltb→lt _ _ more in
          rw (e, next_oids, at-named k lt, e, drop-get_or oids k [] lt)
            (ap (◌∷◌ (at k)) (next_oids-drop fuel (suc k) (at k) (omega arith) (get_next-at k lt)))
      | inr last ↦
          let past : length oids ≤ k = ground arith in
          rw (e, next_oids, get_or_past oids k [] past, drop_all oids k past)
    ]

pub empty-IsCanonical : IsCanonical []
unfolding render
empty-IsCanonical = render-IsCanonical [] tt

-- The empty text comes before every other OID.
empty-Before : (s : Bytes) → is_empty s ≡ false → Before [] s
unfolding is_oid_less
empty-Before [] e = cc
empty-Before (c ∷ s) e = refl

-- If the OIDs are in ascending order and none is the empty text, a client that starts with the empty
-- text and asks for the next OID until it gets the empty text sees every OID, once and in order.
pub next_oids-eq-sorted_oids :
    (odb : OidDatabase)
    → IsAscending odb.sorted_oids
    → All (λ s. is_empty s ≡ false) odb.sorted_oids
    → next_oids (suc (length odb.sorted_oids)) odb [] ≡ odb.sorted_oids
next_oids-eq-sorted_oids odb a named =
    next_oids-drop odb a named (suc (length odb.sorted_oids)) 0 [] (omega arith) (
      IsNext-at odb.sorted_oids [] (get_next odb []) (get_next-IsNext odb a [] empty-IsCanonical) 0
        (λ j lt inside. absurd (omega arith)) (λ lt. empty-Before _ (at-named odb a named 0 lt)))
