-- ===== src/Index/Refines.antt =====
-- internal/store/index_manager.go: `GetNext` of the index against `GetNext` of the database.
use mathlib.Core.List.{mem-cons_self, mem-cons_of_mem}
use go_snmpsim.Prelude.{
  ℕ, zero, suc, ◌+◌, ◌<◌, ◌≡◌, false, Option, some, List, [], ◌∷◌, Bytes, is_empty, All, All-get_or,
  Mem, length, get_or, get_or_past, ltb, ltb→lt, arith, Option-cases, Bool-cases, inl, inr,
  if◌then◌else◌,
}
use go_snmpsim.Positions.{search_oid_position}
use go_snmpsim.Snmp.{OidValue}
use go_snmpsim.Database
use go_snmpsim.Database.{OidDatabase, get}
use go_snmpsim.Database.Consistent.{IsConsistent}
use go_snmpsim.Index.{OidIndexManager, is_table_oid, place_behind, get_next_plain, get_next, type_2}

pub mem-get_or : (xs : List Bytes) (i : ℕ) → i < length xs → Mem (get_or xs i []) xs
mem-get_or [] i h = absurd (omega arith)
mem-get_or (x ∷ xs) zero h = mem-cons_self
mem-get_or (x ∷ xs) (suc i) h = mem-cons_of_mem x (mem-get_or xs i (omega arith))

database-get_next-place :
    (odb : OidDatabase) (oid : Bytes)
    → Database.get_next odb oid ≡ get_or odb.sorted_oids (place_behind odb.sorted_oids oid) []
unfolding Database.get_next place_behind
database-get_next-place odb oid =
    let xs = odb.sorted_oids in
    let idx = search_oid_position xs oid in
    ground (arith, get_or_past xs idx [], get_or_past xs (idx + 1) [])

-- What the index answers for the next OID of the database.
abbrev pub answer : OidDatabase → Bytes → Bytes × Option OidValue
answer odb next = if is_empty next then ([], some type_2) else (next, get odb next)

module _ (im : OidIndexManager) (odb : OidDatabase) (same : im.sorted_oids ≡ odb.sorted_oids)
    (consistent : IsConsistent odb)
    (named : All (λ oid. is_empty oid ≡ false) odb.sorted_oids) where
  get_next_plain-answer :
      (oid : Bytes) → get_next_plain im odb oid ≡ answer odb (Database.get_next odb oid)
  unfolding get_next_plain
  get_next_plain-answer oid =
      let xs = odb.sorted_oids in
      let k = place_behind xs oid in
      let next = get_or xs k [] in
      elim (Bool-cases (ltb k (length xs))) [
        | inr past ↦
            rw (database-get_next-place odb oid, same, past, get_or_past xs k [] (ground arith))
        | inl inside ↦
            let lt = ltb→lt _ _ inside in
            elim (Option-cases (get odb next)) [
              | inl e ↦ absurd (consistent.stored next (mem-get_or xs k lt) e)
              | inr (value, e) ↦ rw (
                database-get_next-place odb oid,
                same,
                inside,
                e,
                same,
                All-get_or [] (λ oid. is_empty oid ≡ false) xs k named lt,
              )
            ]
      ]

  -- An index over the OIDs of the database, which are not empty and have their values, answers for an
  -- OID that is in no table the OID that the database has next, with its value; where the database
  -- has none, it answers the empty OID and the value of type 2.
  pub get_next-answer :
      (oid : Bytes)
      → is_table_oid im oid ≡ false
      → get_next im odb oid ≡ answer odb (Database.get_next odb oid)
  unfolding get_next
  get_next-answer oid outside = rw outside (get_next_plain-answer oid)
