-- ===== src/Table.antt =====
-- internal/store/table.go: tables of rows and columns. An `int` is its bit pattern. The functions of
-- `sort` that the source calls promise a sorted slice; quicksort gives one.
pub mod Rows
pub mod Structure
pub mod Tests
use mathlib.Core.List.{map}
use go_snmpsim.Prelude.{
  ℕ, zero, suc, ◌+◌, ◌-◌, Bool, true, false, not, ◌&&◌, Option, none, some, List, [], ◌∷◌, ◌++◌,
  Bytes, is_empty, Map, nat_eq, text_eq, lookup, put, length, get_or, drop, ltb, if◌then◌else◌,
}
use go_snmpsim.Oid.{int_less, is_oid_less}
use go_snmpsim.Sort.{quick_sort_all, search}
use go_snmpsim.Positions.{search_oid_position}
use go_snmpsim.Snmp.{Value, nil}
use go_snmpsim.Strconv.{print_int}

pub record TableColumn : Type 0 where
  pub col_index : ℕ
  pub oid : Bytes
  pub name : Bytes
  pub syntax : Bytes
  pub access : Bytes
  pub max_access : Bytes

pub record TableRow : Type 0 where
  pub index : Bytes
  pub indices : List Value
  pub values : Map ℕ Value

pub record SnmpTable : Type 0 where
  pub base_oid : Bytes
  pub entry_oid : Bytes
  pub name : Bytes
  pub description : Bytes
  pub columns : Map ℕ TableColumn
  pub rows : Map Bytes TableRow
  pub sorted_row_ids : List Bytes
  pub min_row : Bytes
  pub max_row : Bytes

unfoldable pub new_snmp_table : Bytes → Bytes → Bytes → SnmpTable
new_snmp_table base_oid entry_oid name = record {
  base_oid = base_oid;
  entry_oid = entry_oid;
  name = name;
  description = [];
  columns = [];
  rows = [];
  sorted_row_ids = [];
  min_row = [];
  max_row = [];
}

unfoldable pub add_column : ℕ → Bytes → Bytes → Bytes → SnmpTable → SnmpTable
add_column col_index oid name syntax t = record t {
  columns =
      put col_index
        (record {
          col_index = col_index;
          oid = oid;
          name = name;
          syntax = syntax;
          access = [];
          max_access = [];
        })
        t.columns;
}

abbrev pub keys {ℓ κ} : {K : Type ℓ} {V : Type κ} → Map K V → List K
keys m = map (λ e. e.0) m

-- The least and the greatest row stay as they are in a table without rows.
unfoldable pub rebuild_sorted_rows : SnmpTable → SnmpTable
rebuild_sorted_rows t =
    let ids = quick_sort_all [] is_oid_less (keys t.rows) in
    let ends = ltb 0 (length ids) in
    record t {
      sorted_row_ids = ids;
      min_row = if ends then get_or ids 0 [] else t.min_row;
      max_row = if ends then get_or ids (length ids - 1) [] else t.max_row;
    }

unfoldable pub add_row : Bytes → Map ℕ Value → SnmpTable → SnmpTable
unfolding rebuild_sorted_rows
add_row row_index values t = rebuild_sorted_rows (record t {
  rows = put row_index (record { index = row_index; indices = []; values = values }) t.rows;
})

-- The value, whether it is there, and whether the row is.
unfoldable pub get_value : SnmpTable → ℕ → Bytes → Value × Bool × Bool
get_value t col_index row_index = elim (lookup row_index t.rows) [
  | none ↦ (nil, false, false)
  | some row ↦ elim (lookup col_index t.columns) [
    | none ↦ (nil, false, true)
    | some col ↦ elim (lookup col_index row.values) [
      | none ↦ (nil, false, true)
      | some val ↦ (val, true, true)
    ]
  ]
]

abbrev has_value : SnmpTable → ℕ → Bytes → Bool
has_value t col_index row_index = (get_value t col_index row_index).1

abbrev value_of : SnmpTable → ℕ → Bytes → Value
value_of t col_index row_index = (get_value t col_index row_index).0

-- `fmt.Sprintf("%s.%d.%s", t.EntryOID, colIndex, rowID)`
unfoldable pub cell_oid : SnmpTable → ℕ → Bytes → Bytes
unfolding print_int
cell_oid t col_index row_id = t.entry_oid ++ (b'.' ∷ (print_int col_index ++ (b'.' ∷ row_id)))

-- The numbers of the columns, in order.
unfoldable pub sorted_columns : SnmpTable → List ℕ
sorted_columns t = quick_sort_all 0 int_less (keys t.columns)

-- The first row of the column behind `col_index`.
unfoldable pub next_column : SnmpTable → ℕ → Bytes × Value × Bool
unfolding sorted_columns cell_oid get_value
next_column t col_index =
    let cols = sorted_columns t in
    let col_pos = search (length cols) (λ i. not (int_less (get_or cols i 0) col_index)) in
    let next_col = get_or cols (col_pos + 1) 0 in
    let first_row = get_or t.sorted_row_ids 0 [] in
    if ltb (col_pos + 1) (length cols)
      && (ltb 0 (length t.sorted_row_ids) && has_value t next_col first_row)
    then (cell_oid t next_col first_row, value_of t next_col first_row, true)
    else ([], nil, false)

unfoldable pub get_next_value : SnmpTable → ℕ → Bytes → Bytes × Value × Bool
unfolding next_column cell_oid get_value
get_next_value t col_index row_index =
    let ids = t.sorted_row_ids in
    let row_pos = search_oid_position ids row_index in
    let next_row_id = get_or ids (row_pos + 1) [] in
    if ltb (row_pos + 1) (length ids) && has_value t col_index next_row_id
    then (cell_oid t col_index next_row_id, value_of t col_index next_row_id, true)
    else next_column t col_index

-- The loop of `GetNextRowForColumn`, over the rows behind the position.
unfoldable pub next_row_loop : SnmpTable → ℕ → List Bytes → Bytes × Value × Bool
unfolding get_value
next_row_loop t col_index [] = ([], nil, false)
next_row_loop t col_index (next_row ∷ rows) =
    let rest = next_row_loop t col_index rows in
    if has_value t col_index next_row then (next_row, value_of t col_index next_row, true) else rest

unfoldable pub get_next_row_for_column : SnmpTable → ℕ → Bytes → Bytes × Value × Bool
unfolding next_row_loop
get_next_row_for_column t col_index current_row_index =
    next_row_loop t col_index
      (drop (search_oid_position t.sorted_row_ids current_row_index + 1) t.sorted_row_ids)

-- What `GetFirstValue` finds: the OID, the column, the row and the value.
abbrev pub Cell : Type 0
Cell = Bytes × ℕ × Bytes × Value

first_loop : SnmpTable → Bytes → List ℕ → Option Cell
unfolding get_value cell_oid
first_loop t row [] = none
first_loop t row (col ∷ cols) =
    let rest = first_loop t row cols in
    if has_value t col row then some (cell_oid t col row, col, row, value_of t col row) else rest

unfoldable pub get_first_value : SnmpTable → Option Cell
unfolding first_loop sorted_columns
get_first_value t = elim t.sorted_row_ids [
  | [] ↦ none
  | row ∷ rows ↦ first_loop t row (sorted_columns t)
]

all_loop : SnmpTable → ℕ → List Bytes → List Value
unfolding get_value
all_loop t col_index [] = []
all_loop t col_index (row ∷ rows) =
    let rest = all_loop t col_index rows in
    if has_value t col_index row then value_of t col_index row ∷ rest else rest

unfoldable pub get_all_values : SnmpTable → ℕ → List Value
unfolding all_loop
get_all_values t col_index = all_loop t col_index t.sorted_row_ids

unfoldable pub row_count : SnmpTable → ℕ
row_count t = length t.rows

unfoldable pub column_count : SnmpTable → ℕ
column_count t = length t.columns
