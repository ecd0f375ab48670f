-- ===== src/WalkDiff.antt =====
-- internal/walkdiff/diff.go: two record files compared. The loops over maps go in the maps' order.
pub mod Agreement
pub mod Tests
use mathlib.Core.List.{map}
use go_snmpsim.Prelude.{
  ℕ, Bool, true, false, not, ◌&&◌, ◌||◌, Option, none, some, List, [], ◌∷◌, ◌++◌, Bytes, codes,
  bytes_eq, Map, text_eq, lookup, put, length, ◌==◌, if◌then◌else◌,
}
use go_snmpsim.SnmprecFormat.{Entry, sort_entries, read_file}

pub record Difference : Type 0 where
  pub oid : Bytes
  pub kind : Bytes
  pub left_type : Bytes
  pub left_value : Bytes
  pub right_type : Bytes
  pub right_value : Bytes

pub record Result : Type 0 where
  pub left_count : ℕ
  pub right_count : ℕ
  pub diffs : List Difference

unfoldable pub identical : Result → Bool
identical r = length r.diffs == 0

-- `leftMap[e.OID] = e`, for each entry.
unfoldable pub map_of : Map Bytes Entry → List Entry → Map Bytes Entry
map_of m [] = m
map_of m (e ∷ entries) = map_of (put e.oid e m) entries

-- The keys that the other map has not.
new_keys : Map Bytes Entry → Map Bytes Entry → List Bytes
new_keys seen [] = []
new_keys seen ((oid, e) ∷ m) =
    let rest = new_keys seen m in elim (lookup oid seen) [ some left ↦ rest | none ↦ oid ∷ rest ]

unfoldable pub all_keys : Map Bytes Entry → Map Bytes Entry → List Bytes
unfolding new_keys
all_keys left_map right_map = map (λ e. e.0) left_map ++ new_keys left_map right_map

-- What one OID contributes.
unfoldable pub difference : Bytes → Option Entry → Option Entry → Option Difference
difference oid (some left) none = some (record {
  oid = oid;
  kind = codes "missing-in-right";
  left_type = left.type;
  left_value = left.value;
  right_type = [];
  right_value = [];
})
difference oid none (some right) = some (record {
  oid = oid;
  kind = codes "missing-in-left";
  left_type = [];
  left_value = [];
  right_type = right.type;
  right_value = right.value;
})
difference oid (some left) (some right) =
    if bytes_eq left.type right.type && bytes_eq left.value right.value
    then none
    else some (record {
      oid = oid;
      kind = codes "value-mismatch";
      left_type = left.type;
      left_value = left.value;
      right_type = right.type;
      right_value = right.value;
    })
difference oid none none = none

-- The loop over the sorted entries.
unfoldable pub diff_loop : Map Bytes Entry → Map Bytes Entry → List Entry → List Difference
diff_loop left_map right_map [] = []
diff_loop left_map right_map (e ∷ entries) =
    let rest = diff_loop left_map right_map entries in
    elim (difference e.oid (lookup e.oid left_map) (lookup e.oid right_map)) [
      | none ↦ rest
      | some d ↦ d ∷ rest
    ]

-- `CompareFiles` behind the reading of the files.
unfoldable pub compare_entries : List Entry → List Entry → Result
unfolding map_of all_keys sort_entries diff_loop
compare_entries left_entries right_entries =
    let left_map = map_of [] left_entries in
    let right_map = map_of [] right_entries in
    let entries =
      sort_entries
        (map (λ oid. record { oid = oid; type = []; value = [] }) (all_keys left_map right_map)) in
    record {
      left_count = length left_entries;
      right_count = length right_entries;
      diffs = diff_loop left_map right_map entries;
    }

abbrev compared : Option (List Entry) → Option (List Entry) → Option Result
compared none right = none
compared (some left) none = none
compared (some left) (some right) = some (compare_entries left right)

-- `CompareFiles`, of the bytes of the two files.
unfoldable pub compare_files : Option Bytes → Option Bytes → Option Result
unfolding compare_entries read_file
compare_files left_text right_text = compared (read_file left_text) (read_file right_text)
