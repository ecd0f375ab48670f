-- ===== src/Index.antt =====
-- internal/store/index_manager.go: OIDIndexManager. Its lock and its log are left out. A nil value is
-- `none`, or `Value.nil` in an `interface{}`. sort.Slice sorts as quicksort does; the loops over maps go
-- in the order of the maps.
pub mod Bulk
pub mod Plain
pub mod Refines
pub mod Built
pub mod Tests
use mathlib.Core.List.{foldl, map, filter}
use go_snmpsim.Prelude.{
  ℕ, zero, suc, ◌+◌, ◌-◌, Bool, true, false, not, ◌&&◌, ◌||◌, Option, none, some, List, [], ◌∷◌,
  ◌++◌, Bytes, is_empty, bytes_eq, Map, nat_eq, text_eq, lookup, put, length, get_or, drop, ltb,
  ◌==◌, if◌then◌else◌,
}
use go_snmpsim.Oid.{is_oid_less, int_less}
use go_snmpsim.Sort.{quick_sort_all}
use go_snmpsim.Positions.{search_oid_position}
use go_snmpsim.Strconv.{print_int}
use go_snmpsim.Snmp.{Value, nil, end_of_contents, integer, OidValue, OidEntry}
use go_snmpsim.Database.{OidDatabase, get, walk}
use go_snmpsim.Table.{SnmpTable, keys, sorted_columns, cell_oid, get_first_value, get_next_value}
use go_snmpsim.Table.Structure.{
  Tables, parse_table_oid, is_table_entry, extract_table_base, detect_table_structure,
}

pub record OidIndexManager : Type 0 where
  pub tables : Tables
  pub sorted_oids : List Bytes
  pub oid_to_index : Map Bytes ℕ
  pub table_oids : Map Bytes Bool
  pub total_oids : ℕ
  pub total_tables : ℕ
  pub last_rebuild : ℕ
  pub rebuild_count : ℕ

unfoldable pub new_oid_index_manager : OidIndexManager
new_oid_index_manager = record {
  tables = [];
  sorted_oids = [];
  oid_to_index = [];
  table_oids = [];
  total_oids = 0;
  total_tables = 0;
  last_rebuild = 0;
  rebuild_count = 0;
}

-- The rows of one column.
column_oids : SnmpTable → List ℕ → List Bytes
unfolding cell_oid
column_oids table [] = []
column_oids table (col ∷ cols) =
    map (λ row. cell_oid table col row) table.sorted_row_ids ++ column_oids table cols

unfoldable pub build_table_oid_list : SnmpTable → List Bytes
unfolding column_oids sorted_columns
build_table_oid_list table = column_oids table (sorted_columns table)

-- The list of all entries that `BuildIndex` collects by a walk.
unfoldable pub collect_entries : OidDatabase → List OidEntry
unfolding walk
collect_entries odb =
    walk odb
      (λ oid value entries.
        (entries ++ (record { oid = oid; type = value.type; value = value.value }) ∷ [], true))
      []

-- The marks of a table's entry and of its base.
mark_table : Map Bytes Bool → Bytes × SnmpTable → Map Bytes Bool
unfolding extract_table_base
mark_table marks (entry_oid, table) =
    put entry_oid true (put (extract_table_base entry_oid) true marks)

-- The OIDs outside tables.
plain_oids : List OidEntry → List Bytes
unfolding is_table_entry
plain_oids [] = []
plain_oids (entry ∷ entries) =
    let rest = plain_oids entries in if is_table_entry entry.oid then rest else entry.oid ∷ rest

-- The cells of the tables, in the order of their entries.
table_cells : Tables → List Bytes → List Bytes
unfolding build_table_oid_list
table_cells tables [] = []
table_cells tables (entry_oid ∷ entry_oids) = elim (lookup entry_oid tables) [
  | none ↦ table_cells tables entry_oids
  | some table ↦ build_table_oid_list table ++ table_cells tables entry_oids
]

-- The list of OIDs that the index is built of: sorted OIDs outside tables, then the tables.
unfoldable pub index_oids : List OidEntry → Tables → List Bytes
unfolding plain_oids table_cells
index_oids entries tables =
    quick_sort_all [] is_oid_less (plain_oids entries)
    ++ table_cells tables (quick_sort_all [] is_oid_less (keys tables))

number_oids : ℕ → Map Bytes ℕ → List Bytes → Map Bytes ℕ
number_oids i m [] = m
number_oids i m (oid ∷ oids) = number_oids (i + 1) (put oid i m) oids

unfoldable pub build_index : OidDatabase → OidIndexManager → OidIndexManager
unfolding collect_entries mark_table index_oids number_oids detect_table_structure
build_index odb im =
    let entries = collect_entries odb in
    let tables = detect_table_structure entries in
    let oids = index_oids entries tables in
    record im {
      tables = tables;
      table_oids = foldl mark_table im.table_oids tables;
      sorted_oids = oids;
      oid_to_index = number_oids 0 [] oids;
      total_oids = length oids;
      total_tables = length tables;
      rebuild_count = im.rebuild_count + 1;
    }

abbrev is_marked : Option Bool → Bool
is_marked none = false
is_marked (some b) = b

-- A mark at `oid[:i]`, for a dot at `i`; `seen` holds the bytes in front of the rest.
prefix_marked : Map Bytes Bool → Bytes → Bytes → Bool
prefix_marked marks seen [] = false
prefix_marked marks seen (c ∷ rest) =
    let longer = prefix_marked marks (seen ++ c ∷ []) rest in
    longer || (c == b'.' && is_marked (lookup seen marks))

unfoldable pub is_table_oid : OidIndexManager → Bytes → Bool
unfolding prefix_marked
is_table_oid im oid = is_marked (lookup oid im.table_oids) || prefix_marked im.table_oids [] oid

-- The place of the first OID of the list behind `oid`.
unfoldable pub place_behind : List Bytes → Bytes → ℕ
place_behind oids oid =
    let idx = search_oid_position oids oid in
    if ltb idx (length oids) && bytes_eq (get_or oids idx []) oid then idx + 1 else idx

-- A scan for an OID that has a value.
unfoldable pub first_valid : OidDatabase → List Bytes → Option (Bytes × OidValue)
first_valid odb [] = none
first_valid odb (oid ∷ oids) = elim (get odb oid) [
  | some value ↦ some (oid, value)
  | none ↦ first_valid odb oids
]

-- What the source returns at the end of the MIB.
abbrev pub type_2 : OidValue
type_2 = record { type = integer; value = nil }

abbrev pub or_type_2 : Option (Bytes × OidValue) → Bytes × Option OidValue
or_type_2 none = ([], some type_2)
or_type_2 (some (oid, value)) = (oid, some value)

abbrev pub or_nothing : Option (Bytes × OidValue) → Bytes × Option OidValue
or_nothing none = ([], none)
or_nothing (some (oid, value)) = (oid, some value)

-- `lastTableOID`
unfoldable pub last_table_oid : SnmpTable → Bytes
unfolding sorted_columns cell_oid
last_table_oid table =
    let cols = sorted_columns table in
    let rows = table.sorted_row_ids in
    if ltb 0 (length rows) && ltb 0 (length cols)
    then cell_oid table (get_or cols (length cols - 1) 0) (get_or rows (length rows - 1) [])
    else []

abbrev pub is_nil : Value → Bool
is_nil nil = true
is_nil v = false

module _ (im : OidIndexManager) (odb : OidDatabase) where
  -- Behind the exact place, or behind that.
  unfoldable pub get_next_plain : Bytes → Bytes × Option OidValue
  unfolding place_behind first_valid
  get_next_plain oid =
      let idx = place_behind im.sorted_oids oid in
      let next_oid = get_or im.sorted_oids idx [] in
      if ltb idx (length im.sorted_oids)
      then elim (get odb next_oid) [
        | some value ↦ (next_oid, some value)
        | none ↦ or_type_2 (first_valid odb (drop (idx + 1) im.sorted_oids))
      ]
      else ([], some type_2)

  unfoldable pub get_oid_after_table : Bytes → Bytes × Option OidValue
  unfolding last_table_oid place_behind first_valid
  get_oid_after_table entry_oid = elim (lookup entry_oid im.tables) [
    | none ↦ ([], none)
    | some table ↦
        or_nothing (
          first_valid odb
            (drop (place_behind im.sorted_oids (last_table_oid table)) im.sorted_oids))
  ]

  -- The first cell of a table, or what follows the table if there is none.
  enter_table : Bytes → SnmpTable → Bytes × Option OidValue
  unfolding get_oid_after_table get_first_value
  enter_table entry_key table = elim (get_first_value table) [
    | none ↦ get_oid_after_table entry_key
    | some (oid, col, row, val) ↦
        if is_nil val then get_oid_after_table entry_key else elim (get odb oid) [
          | some value ↦ (oid, some value)
          | none ↦ (oid, some (record { type = end_of_contents; value = val }))
        ]
  ]

  -- For an OID under a table that is in no table.
  leave_table : Bytes → Bytes × Option OidValue
  unfolding place_behind
  leave_table oid =
      let idx = place_behind im.sorted_oids oid in
      let next_oid = get_or im.sorted_oids idx [] in
      if ltb idx (length im.sorted_oids)
      then elim (get odb next_oid) [ some value ↦ (next_oid, some value) | none ↦ ([], none) ]
      else ([], none)

  -- The key of a table for an OID that is not a cell: the OID itself, or its entry.
  entry_key_of : Bytes → Bytes
  entry_key_of oid = elim (lookup oid im.tables) [
    | some table ↦ oid
    | none ↦ oid ++ b'.' ∷ b'1' ∷ []
  ]

  unfoldable pub get_next_table_oid : Bytes → Bytes × Option OidValue
  unfolding parse_table_oid enter_table leave_table entry_key_of get_next_value
  get_next_table_oid oid = elim (parse_table_oid oid) [
    | none ↦ elim (lookup (entry_key_of oid) im.tables) [
      | some table ↦ enter_table (entry_key_of oid) table
      | none ↦ leave_table oid
    ]
    | some (entry_oid, col_index, row_index) ↦ elim (lookup entry_oid im.tables) [
      | none ↦ ([], none)
      | some table ↦
          let next = get_next_value table col_index row_index in
          if next.2 && not (is_nil next.1)
          then (next.0, some (record { type = end_of_contents; value = next.1 }))
          else get_oid_after_table entry_oid
    ]
  ]

  unfoldable pub get_next : Bytes → Bytes × Option OidValue
  unfolding is_table_oid get_next_plain get_next_table_oid
  get_next oid = if is_table_oid im oid then get_next_table_oid oid else get_next_plain oid
