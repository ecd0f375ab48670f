-- ===== src/Database/Tests.antt =====
-- The database at concrete OIDs.
use go_snmpsim.Prelude.{
  List, ◌≡◌, refl, [], ◌∷◌, some, Bytes, All, codes, arith, bytes_eq, if◌then◌else◌, text_eq,
}
use go_snmpsim.Oid.{is_oid_less}
use go_snmpsim.Oid.Render.{IsCanonical, render, decimal, render_tail, render-IsCanonical}
use go_snmpsim.Snmp.{OidValue, integer, int}
use go_snmpsim.Positions.{search_oid_position}
use go_snmpsim.Positions.Ascending.{IsAscending}
use go_snmpsim.Sort.{search, quick_sort_all, quick_sort, partition, partition_loop, swap}
use go_snmpsim.Database.{OidDatabase, new_oid_database, insert, batch_insert, get, get_next}
use go_snmpsim.Database.Shards.{get-insert, new-IsSharded}
use go_snmpsim.Database.Next.{IsNext, get_next-IsNext}
use go_snmpsim.Database.Walk.{next_oids, next_oids-eq-sorted_oids}
use go_snmpsim.Database.Consistent.{IsConsistent, new-IsConsistent, insert-IsConsistent}

abbrev five : OidValue
five = record { type = integer; value = int 5 }

abbrev first_oid : Bytes
first_oid = codes "1.9"

abbrev second_oid : Bytes
second_oid = codes "1.10.2"

first-IsCanonical : IsCanonical first_oid
first-IsCanonical =
    unfold render decimal render_tail in
    render-IsCanonical (1 ∷ 9 ∷ []) (omega arith, (omega arith, tt))

second-IsCanonical : IsCanonical second_oid
second-IsCanonical =
    unfold render decimal render_tail in
    render-IsCanonical (1 ∷ 10 ∷ 2 ∷ []) (omega arith, (omega arith, (omega arith, tt)))

abbrev two_oids : OidDatabase
two_oids = record { shards = []; sorted_oids = first_oid ∷ second_oid ∷ [] }

two_oids-IsAscending : IsAscending two_oids.sorted_oids
two_oids-IsAscending = record {
  canonical = (first-IsCanonical, (second-IsCanonical, tt));
  ordered = (((unfold is_oid_less in refl), tt), (tt, tt));
}

-- In the wrong order, and one of them twice.
abbrev unsorted : OidDatabase
unsorted = record { shards = []; sorted_oids = second_oid ∷ first_oid ∷ second_oid ∷ [] }

abbrev filled : OidDatabase
filled = insert second_oid five (insert first_oid five new_oid_database)

filled-IsConsistent : IsConsistent filled
filled-IsConsistent =
    insert-IsConsistent _ (insert-IsConsistent _ new-IsConsistent first_oid five) second_oid five

filled-IsCanonical : All IsCanonical filled.sorted_oids
filled-IsCanonical = unfold insert new_oid_database in (first-IsCanonical, (second-IsCanonical, tt))

next_of_first : get_next two_oids first_oid ≡ second_oid
unfolding get_next search_oid_position search is_oid_less
next_of_first = refl

next_of_last : get_next two_oids second_oid ≡ []
unfolding get_next search_oid_position search is_oid_less
next_of_last = refl

-- An OID that is inserted again by `BatchInsert` stays twice, and follows itself.
next_of_duplicate :
    get_next
      (batch_insert ((first_oid, five) ∷ []) (insert first_oid five new_oid_database))
      first_oid
    ≡ first_oid
unfolding get_next search_oid_position search is_oid_less batch_insert insert new_oid_database
    quick_sort_all quick_sort partition partition_loop swap
next_of_duplicate = refl

get_next-IsNext_example : IsNext two_oids.sorted_oids first_oid (get_next two_oids first_oid)
get_next-IsNext_example = get_next-IsNext two_oids two_oids-IsAscending first_oid first-IsCanonical

next_oids-eq-sorted_oids_example : next_oids 3 two_oids [] ≡ first_oid ∷ second_oid ∷ []
next_oids-eq-sorted_oids_example =
    next_oids-eq-sorted_oids two_oids two_oids-IsAscending (refl, (refl, tt))

get-insert_example :
    get (insert first_oid five new_oid_database) second_oid
    ≡ (if bytes_eq first_oid second_oid then some five else get new_oid_database second_oid)
get-insert_example = get-insert new_oid_database new-IsSharded first_oid five second_oid

abbrev loaded : List (Bytes × OidValue)
loaded = (second_oid, five) ∷ (first_oid, five) ∷ (second_oid, five) ∷ []
