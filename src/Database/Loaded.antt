-- ===== src/Database/Loaded.antt =====
-- internal/store/database.go: a database that is filled by `Insert`, sorted and walked.
use mathlib.Core.Path.{subst}
use mathlib.Core.List.{append-nil, mem-cons_self, mem-cons_of_mem}
use go_snmpsim.Prelude.{
  suc, ◌≡◌, ◌↔◌, false, List, [], ◌∷◌, ◌++◌, Bytes, is_empty, All, All-mem, sym, ◌∙◌, append_assoc,
  length, Mem,
}
use go_snmpsim.Oid.Render.{IsCanonical}
use go_snmpsim.Snmp.{OidValue}
use go_snmpsim.Positions.Ascending.{IsAscending}
use go_snmpsim.Database.{OidDatabase, new_oid_database, insert, sort_oids}
use go_snmpsim.Database.Sorting.{sort_oids-IsAscending}
use go_snmpsim.Database.Walk.{next_oids, next_oids-eq-sorted_oids}

-- The loop of a loader: one `Insert` for each entry.
unfoldable pub insert_all : List (Bytes × OidValue) → OidDatabase → OidDatabase
insert_all [] odb = odb
insert_all ((oid, value) ∷ es) odb = insert_all es (insert oid value odb)

abbrev pub oids_of : List (Bytes × OidValue) → List Bytes
oids_of [] = []
oids_of ((oid, value) ∷ es) = oid ∷ oids_of es

insert_all-sorted_oids :
    (es : List (Bytes × OidValue)) (odb : OidDatabase)
    → (insert_all es odb).sorted_oids ≡ odb.sorted_oids ++ oids_of es
unfolding insert_all insert
insert_all-sorted_oids [] odb = sym (append-nil odb.sorted_oids)
insert_all-sorted_oids ((oid, value) ∷ es) odb =
    insert_all-sorted_oids es (insert oid value odb)
    ∙ append_assoc odb.sorted_oids (oid ∷ []) (oids_of es)

loaded-sorted_oids :
    (es : List (Bytes × OidValue)) → (insert_all es new_oid_database).sorted_oids ≡ oids_of es
unfolding new_oid_database
loaded-sorted_oids es = insert_all-sorted_oids es new_oid_database

All-of_mem : (Q : Bytes → Type 0) (xs : List Bytes) → ((x : Bytes) → Mem x xs → Q x) → All Q xs
All-of_mem Q [] h = tt
All-of_mem Q (x ∷ xs) h = (h x mem-cons_self, All-of_mem Q xs (λ y m. h y (mem-cons_of_mem x m)))

-- If OIDs in canonical form, none of them the empty text, are inserted into a new database, in any
-- order and any number of times, and `SortOIDs` is called, then a client that follows `GetNext` from
-- the empty text sees exactly the OIDs that were inserted, each once and in ascending order.
pub next_oids-insert_all :
    (es : List (Bytes × OidValue))
    → All IsCanonical (oids_of es)
    → All (λ s. is_empty s ≡ false) (oids_of es)
    → let odb = sort_oids (insert_all es new_oid_database) in
      (next_oids (suc (length odb.sorted_oids)) odb [] ≡ odb.sorted_oids)
      × IsAscending odb.sorted_oids
      × ((a : Bytes) → Mem a odb.sorted_oids ↔ Mem a (oids_of es))
next_oids-insert_all es c named =
    let filled = insert_all es new_oid_database in
    let (ascending, same) = sort_oids-IsAscending filled (rw (loaded-sorted_oids es) c) in
    let same_oids : (x : Bytes) → Mem x (sort_oids filled).sorted_oids ↔ Mem x (oids_of es) = λ x.
      subst (λ l. Mem x (sort_oids filled).sorted_oids ↔ Mem x l) (loaded-sorted_oids es)
        (same x) in
    let all_named =
      All-of_mem (λ s. is_empty s ≡ false) (sort_oids filled).sorted_oids
        (λ x m. All-mem (λ y. hlevel) (oids_of es) x named ((same_oids x).0 m)) in
    (next_oids-eq-sorted_oids (sort_oids filled) ascending all_named, ascending, same_oids)
