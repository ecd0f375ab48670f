-- ===== src/Database/Next.antt =====
-- internal/store/database.go: `GetNext` over ascending OIDs.
use go_snmpsim.Prelude.{
  ℕ, ◌+◌, ◌<◌, ◌≡◌, refl, List, [], Bytes, bytes_eq, bytes_eq_iff, bytes_eq_refl, length, get_or,
  arith, true, false, Bool-cases, inl, inr, ℕ_trichotomy, ltb, ltb→lt, lt→ltb,
}
use go_snmpsim.Oid.{is_oid_less}
use go_snmpsim.Oid.Render.{IsCanonical, is_oid_less_total}
use go_snmpsim.Positions.{search_oid_position}
use go_snmpsim.Positions.Ascending.{
  Before, IsAscending, IsPosition, search_oid_position-IsPosition, Before_irrefl, Before-asym,
  entries-Before, entry-IsCanonical,
}
use go_snmpsim.Database.{OidDatabase, get_next}

-- The answer of `GetNext`: the first entry behind the target, or the empty text, if all entries are
-- at the target or before it.
pub data IsNext (xs : List Bytes) (target : Bytes) (answer : Bytes) : Type 0 where
  entry :
      (i : ℕ)
      → i < length xs
      → answer ≡ get_or xs i []
      → Before target answer
      → ((j : ℕ) → j < i → is_oid_less target (get_or xs j []) ≡ false)
      → IsNext xs target answer
  end_of_mib :
      answer ≡ []
      → ((j : ℕ) → j < length xs → is_oid_less target (get_or xs j []) ≡ false)
      → IsNext xs target answer

module _ (odb : OidDatabase) (a : IsAscending odb.sorted_oids) (oid : Bytes)
    (c : IsCanonical oid) where
  abbrev oids : List Bytes
  oids = odb.sorted_oids

  abbrev at : ℕ → Bytes
  at i = get_or oids i []

  position : IsPosition oids oid (search_oid_position oids oid)
  position = search_oid_position-IsPosition oids a oid c

  abbrev idx : ℕ
  idx = search_oid_position oids oid

  not_behind : (j : ℕ) → j < idx → is_oid_less oid (at j) ≡ false
  not_behind j h =
      Before-asym (at j) oid (entry-IsCanonical oids a oid c j (omega (arith, position.fits))) c
        (position.below j h)

  -- With no exact match the entry at the place is behind the target.
  behind : idx < length oids → bytes_eq (at idx) oid ≡ false → Before oid (at idx)
  behind h e = ground (
    arith,
    is_oid_less_total (at idx) oid (entry-IsCanonical oids a oid c idx h) c
        (position.above idx (omega arith) h),
    bytes_eq_iff (at idx) oid,
    bytes_eq_refl oid,
  )

  not_behind_match :
      bytes_eq (at idx) oid ≡ true → (j : ℕ) → j < idx + 1 → is_oid_less oid (at j) ≡ false
  not_behind_match e j h = elim (ℕ_trichotomy j idx) [
    | inl lt ↦ not_behind j lt
    | inr (inl here) ↦ rw (here, (bytes_eq_iff (at idx) oid).0 e) (Before_irrefl oid c)
    | inr (inr gt) ↦ absurd (omega arith)
  ]

  -- With an exact match the entry behind it is behind the target.
  behind_match : idx + 1 < length oids → bytes_eq (at idx) oid ≡ true → Before oid (at (idx + 1))
  behind_match h e =
      rw ((bytes_eq_iff (at idx) oid).0 e) at
        (entries-Before oids a oid c idx (idx + 1) (omega arith) h)

  match_inside :
      idx < length oids → bytes_eq (at idx) oid ≡ true → IsNext oids oid (get_next odb oid)
  unfolding get_next
  match_inside inside e = elim (Bool-cases (ltb (idx + 1) (length oids))) [
    | inl more ↦
        rw (lt→ltb _ _ inside, e, more)
          (entry (idx + 1) (ltb→lt _ _ more) refl (behind_match (ltb→lt _ _ more) e)
            (not_behind_match e))
    | inr last ↦
        rw (lt→ltb _ _ inside, e, last)
          (end_of_mib refl (λ j h. not_behind_match e j (ground arith)))
  ]

  -- In a database whose OIDs are ascending, `GetNext` of an OID in canonical form returns the first
  -- entry that comes after it, and the empty text if there is none.
  pub get_next-IsNext : IsNext oids oid (get_next odb oid)
  unfolding get_next
  get_next-IsNext = elim (Bool-cases (ltb idx (length oids))) [
    | inl inside ↦
        let h = ltb→lt _ _ inside in
        elim (Bool-cases (bytes_eq (at idx) oid)) [
          | inl e ↦ match_inside h e
          | inr e ↦ rw (inside, e) (entry idx h refl (behind h e) not_behind)
        ]
    | inr outside ↦ rw outside (end_of_mib refl (λ j h. not_behind j (ground arith)))
  ]
