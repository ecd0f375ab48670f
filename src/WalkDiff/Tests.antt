-- ===== src/WalkDiff/Tests.antt =====
-- Two concrete files.
use go_snmpsim.Prelude.{◌≡◌, ◌↔◌, refl, true, false, [], ◌∷◌, Bytes, codes, lookup, put, text_eq}
use go_snmpsim.SnmprecFormat.{Entry, sort_entries}
use go_snmpsim.WalkDiff.{identical, map_of, compare_entries, difference}
use go_snmpsim.Sort.{quick_sort_all, quick_sort}
use go_snmpsim.WalkDiff.Agreement.{content, compare_entries-identical}

abbrev five : Entry
five = record { oid = codes "1.9"; type = codes "integer"; value = codes "5" }

abbrev six : Entry
six = record { oid = codes "1.9"; type = codes "integer"; value = codes "6" }

compare_entries-identical_example :
    (identical (compare_entries (five ∷ []) (six ∷ five ∷ [])) ≡ true) ↔ (
      (oid : Bytes)
      → content (lookup oid (map_of [] (five ∷ [])))
        ≡ content (lookup oid (map_of [] (six ∷ five ∷ []))))
compare_entries-identical_example = compare_entries-identical (five ∷ []) (six ∷ five ∷ [])

-- The last record of an OID counts.
last_counts : identical (compare_entries (five ∷ []) (six ∷ five ∷ [])) ≡ true
unfolding identical compare_entries lookup put difference sort_entries quick_sort_all quick_sort
last_counts = refl

differ : identical (compare_entries (five ∷ []) (six ∷ [])) ≡ false
unfolding identical compare_entries lookup put difference sort_entries quick_sort_all quick_sort
differ = refl
