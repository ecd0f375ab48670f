-- ===== src/Index/Tests.antt =====
-- A concrete index.
use go_snmpsim.Prelude.{
  ℕ, ◌≤◌, ◌≡◌, refl, true, false, some, [], ◌∷◌, All, Bytes, codes, is_empty, length, arith, lookup,
  put, text_eq,
}
use go_snmpsim.Oid.{is_oid_less, int_less}
use go_snmpsim.Oid.Render.{IsCanonical, render, decimal, render_tail, render-IsCanonical}
use go_snmpsim.Positions.Ascending.{IsAscending}
use go_snmpsim.Sort.{quick_sort_all, quick_sort}
use go_snmpsim.Snmp.{integer, int, OidValue}
use go_snmpsim.Strconv.{print_int, parse_int}
use go_snmpsim.Strconv.Scan.{split, join, scan_int}
use go_snmpsim.Database.Next.{IsNext}
use go_snmpsim.Database.{OidDatabase, new_oid_database, insert, get, walk}
use go_snmpsim.Database.Consistent.{IsConsistent, new-IsConsistent, insert-IsConsistent}
use go_snmpsim.Table.Structure.{
  is_table_entry, parse_table_oid, extract_table_base, detect_table_structure,
}
use go_snmpsim.Index.{OidIndexManager, new_oid_index_manager, build_index, is_table_oid, get_next}
use go_snmpsim.Index.Bulk.{get_next_bulk, limit_repeaters}
use go_snmpsim.Index.Bulk.Bounds.{get_next_bulk-length-le}
use go_snmpsim.Index.Plain.{follow, get_next_bulk-follow}
use go_snmpsim.Index.Refines.{answer}
use go_snmpsim.Index.Built.{get_next-build_index}

abbrev value_of : ℕ → OidValue
value_of n = record { type = integer; value = int n }

abbrev first_oid : Bytes
first_oid = codes "1.9"

abbrev second_oid : Bytes
second_oid = codes "1.10.2"

first-IsCanonical : IsCanonical first_oid
first-IsCanonical =
    unfold render decimal render_tail in
    render-IsCanonical (1 ∷ 9 ∷ []) (omega arith, (omega arith, tt))

second-IsCanonical : IsCanonical second_oid
second-IsCanonical =
    unfold render decimal render_tail in
    render-IsCanonical (1 ∷ 10 ∷ 2 ∷ []) (omega arith, (omega arith, (omega arith, tt)))

abbrev filled : OidDatabase
filled = insert second_oid (value_of 2) (insert first_oid (value_of 1) new_oid_database)

abbrev index : OidIndexManager
index = record new_oid_index_manager { sorted_oids = first_oid ∷ second_oid ∷ [] }

index-IsAscending : IsAscending index.sorted_oids
index-IsAscending = record {
  canonical = (first-IsCanonical, (second-IsCanonical, tt));
  ordered = (((unfold is_oid_less in refl), tt), (tt, tt));
}

outside_first : is_table_oid index first_oid ≡ false
unfolding is_table_oid lookup new_oid_index_manager
outside_first = refl

outside_second : is_table_oid index second_oid ≡ false
unfolding is_table_oid lookup new_oid_index_manager
outside_second = refl

get_next_bulk-length-le_example :
    let results = get_next_bulk index filled first_oid 500 in
    (length results ≤ 128)
    × (int_less 500 1 ≡ false → length results ≤ 500)
    × (int_less 500 1 ≡ true → length results ≤ 1)
get_next_bulk-length-le_example = get_next_bulk-length-le index filled first_oid 500 (omega arith)

get_next_bulk-follow_example :
    get_next_bulk index filled first_oid 10 ≡ follow index filled (limit_repeaters 10) first_oid
get_next_bulk-follow_example =
    get_next_bulk-follow index filled index-IsAscending
      ((refl, outside_first), ((refl, outside_second), tt)) first_oid 10 (omega arith) outside_first

filled-IsConsistent : IsConsistent filled
filled-IsConsistent =
    insert-IsConsistent _ (insert-IsConsistent _ new-IsConsistent first_oid (value_of 1)) second_oid
      (value_of 2)

all_named : All (λ oid. is_empty oid ≡ false) filled.sorted_oids
unfolding insert new_oid_database
all_named = (refl, (refl, tt))

filled-IsAscending : IsAscending filled.sorted_oids
unfolding insert new_oid_database
filled-IsAscending = record {
  canonical = (first-IsCanonical, (second-IsCanonical, tt));
  ordered = (((unfold is_oid_less in refl), tt), (tt, tt));
}

no_rows : All (λ oid. is_table_entry oid ≡ false) filled.sorted_oids
unfolding insert new_oid_database is_table_entry split scan_int
no_rows = (refl, (refl, tt))

get_next-build_index_example :
    (next : Bytes) × IsNext filled.sorted_oids first_oid next
    × (get_next (build_index filled new_oid_index_manager) filled first_oid ≡ answer filled next)
get_next-build_index_example =
    get_next-build_index filled filled-IsAscending filled-IsConsistent no_rows all_named first_oid
      first-IsCanonical

-- A row of a table, and a scalar.
row_parts : parse_table_oid (codes "1.3.6.2.1.10.4") ≡ some (codes "1.3.6.2.1", 10, codes "4")
unfolding parse_table_oid split join scan_int parse_int
row_parts = refl

scalar : is_table_entry (codes "1.3.1.1.0") ≡ false
unfolding is_table_entry split scan_int
scalar = refl

-- An OID behind a table comes before the table in the index.
abbrev behind_table : OidDatabase
behind_table =
    insert (codes "1.3.5.0") (value_of 2) (insert (codes "1.3.1.2.1") (value_of 1) new_oid_database)

table_last :
    (build_index behind_table new_oid_index_manager).sorted_oids
    ≡ codes "1.3.5.0" ∷ codes "1.3.1.2.1" ∷ []
unfolding build_index insert new_oid_database get walk is_table_entry detect_table_structure
    parse_table_oid extract_table_base quick_sort_all split join scan_int lookup put print_int
    quick_sort parse_int decimal
table_last = refl
