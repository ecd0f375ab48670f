-- ===== src/Table/Structure.antt =====
-- internal/store/table.go: tables found among OIDs. An error is `none`. The map `entryGroups` of the
-- source is written only; its keys are those of `tables`.
use mathlib.Core.List.{foldl, map}
use go_snmpsim.Prelude.{
  ℕ, ◌+◌, ◌-◌, ◌*◌, Bool, true, false, ◌&&◌, Option, none, some, List, [], Bytes, codes, bytes_eq,
  Map, nat_eq, text_eq, lookup, put, length, get_or, take, ltb, if◌then◌else◌,
}
use go_snmpsim.Oid.{int_less}
use go_snmpsim.Snmp.{Value, OidEntry}
use go_snmpsim.Strconv.Scan.{split, join, scan_int}
use go_snmpsim.Table.{
  SnmpTable, TableRow, new_snmp_table, add_column, rebuild_sorted_rows, row_count, column_count,
}

-- The part at `back` places from the end.
abbrev pub part_back : List Bytes → ℕ → Bytes
part_back parts back = get_or parts (length parts - back) []

abbrev with_column : Bytes → Bytes → Option ℕ → Option (Bytes × ℕ × Bytes)
with_column entry_oid row_index none = none
with_column entry_oid row_index (some col_index) = some (entry_oid, col_index, row_index)

-- The OID of the entry, the column and the row.
unfoldable pub parse_table_oid : Bytes → Option (Bytes × ℕ × Bytes)
unfolding split join scan_int
parse_table_oid oid =
    let parts = split b'.' oid in
    let entry_oid = join b'.' (take (length parts - 2) parts) in
    if ltb (length parts) 5
    then none
    else if bytes_eq (part_back parts 3) (codes "1")
    then with_column entry_oid (part_back parts 1) (scan_int (part_back parts 2))
    else none

abbrev is_row : Option ℕ → Bool
is_row none = false
is_row (some row_index) = if int_less row_index 1 then false else true

abbrev is_column : Option ℕ → Bool
is_column none = false
is_column (some col_index) = true

unfoldable pub is_table_entry : Bytes → Bool
unfolding split scan_int
is_table_entry oid =
    let parts = split b'.' oid in
    if ltb (length parts) 4
    then false
    else if bytes_eq (part_back parts 1) (codes "0")
    then false
    else is_row (scan_int (part_back parts 1))
      && (is_column (scan_int (part_back parts 2)) && bytes_eq (part_back parts 3) (codes "1"))

unfoldable pub extract_table_base : Bytes → Bytes
unfolding split join
extract_table_base entry_oid =
    let parts = split b'.' entry_oid in
    if bytes_eq (part_back parts 1) (codes "1")
    then join b'.' (take (length parts - 1) parts)
    else entry_oid

abbrev pub Tables : Type 0
Tables = Map Bytes SnmpTable

-- The table of an entry, new where there was none.
table_for : Tables → Bytes → SnmpTable
unfolding new_snmp_table extract_table_base
table_for tables entry_oid = elim (lookup entry_oid tables) [
  | some table ↦ table
  | none ↦ new_snmp_table (extract_table_base entry_oid) entry_oid (extract_table_base entry_oid)
]

-- The row of a table, new where there was none.
row_for : SnmpTable → Bytes → TableRow
row_for table row_index = elim (lookup row_index table.rows) [
  | some row ↦ row
  | none ↦ record { index = row_index; indices = []; values = [] }
]

-- `table.Rows[rowIndex].Values[colIndex] = entry.Value`, in a row that is made if need be.
set_cell : ℕ → Bytes → Value → SnmpTable → SnmpTable
unfolding row_for
set_cell col_index row_index value table =
    let row = row_for table row_index in
    record table {
      rows = put row_index (record row { values = put col_index value row.values }) table.rows;
    }

-- One round of the loop over the entries.
unfoldable pub detect_step : Tables → OidEntry → Tables
unfolding is_table_entry parse_table_oid table_for add_column set_cell
detect_step tables entry =
    if is_table_entry entry.oid
    then elim (parse_table_oid entry.oid) [
      | none ↦ tables
      | some (entry_oid, col_index, row_index) ↦
          let table = add_column col_index entry.oid [] [] (table_for tables entry_oid) in
          put entry_oid (set_cell col_index row_index entry.value table) tables
    ]
    else tables

unfoldable pub detect_table_structure : List OidEntry → Tables
unfolding detect_step rebuild_sorted_rows
detect_table_structure entries =
    map (λ e. (e.0, rebuild_sorted_rows e.1)) (foldl detect_step [] entries)

pub record TableDetail : Type 0 where
  pub name : Bytes
  pub row_count : ℕ
  pub col_count : ℕ
  pub cell_count : ℕ

pub record TableStats : Type 0 where
  pub table_count : ℕ
  pub total_rows : ℕ
  pub total_cells : ℕ
  pub by_table : Map Bytes TableDetail

detail_of : SnmpTable → TableDetail
unfolding row_count column_count
detail_of table = record {
  name = table.name;
  row_count = row_count table;
  col_count = column_count table;
  cell_count = row_count table * column_count table;
}

count_table : TableStats → Bytes × SnmpTable → TableStats
unfolding detail_of
count_table stats (entry_oid, table) =
    let detail = detail_of table in
    record stats {
      by_table = put entry_oid detail stats.by_table;
      total_rows = stats.total_rows + detail.row_count;
      total_cells = stats.total_cells + detail.cell_count;
    }

unfoldable pub get_table_stats : Tables → TableStats
unfolding count_table
get_table_stats tables =
    foldl count_table
      (record { table_count = length tables; total_rows = 0; total_cells = 0; by_table = [] })
      tables
