-- ===== src/Index/Bulk.antt =====
-- internal/store/index_manager.go: `GetNextBulk`.
pub mod Bounds
use go_snmpsim.Prelude.{
  ℕ, zero, suc, ◌+◌, ◌-◌, Bool, true, false, not, ◌&&◌, ◌||◌, Option, none, some, List, [], ◌∷◌,
  ◌++◌, Bytes, text_eq, lookup, length, length-append, ◌≤◌, ◌<◌, ◌≡◌, arith, Option-cases,
  Bool-cases, inl, inr, get_or, drop, ltb, leb, ◌==◌, if◌then◌else◌,
}
use go_snmpsim.Oid.{int_less}
use go_snmpsim.Snmp.{Value, end_of_contents, OidValue}
use go_snmpsim.Strconv.{print_int}
use go_snmpsim.Database.{OidDatabase, get}
use go_snmpsim.Table.{SnmpTable, sorted_columns, cell_oid, get_value, get_next_row_for_column}
use go_snmpsim.Table.Structure.{parse_table_oid}
use go_snmpsim.Index.{OidIndexManager, is_nil, is_table_oid, place_behind}

pub record GetNextBulkResult : Type 0 where
  pub oid : Bytes
  pub value : OidValue

-- The repetitions that are served.
unfoldable pub limit_repeaters : ℕ → ℕ
limit_repeaters max_repeaters =
    let most = if int_less 128 max_repeaters then 128 else max_repeaters in
    if int_less most 1 then 1 else most

-- At most `left` OIDs of the list that have a value.
unfoldable pub collect_loop : OidDatabase → ℕ → List Bytes → List GetNextBulkResult
collect_loop odb zero oids = []
collect_loop odb (suc left) [] = []
collect_loop odb (suc left) (oid ∷ oids) = elim (get odb oid) [
  | some value ↦ (record { oid = oid; value = value }) ∷ collect_loop odb left oids
  | none ↦ collect_loop odb (suc left) oids
]

unfoldable pub get_next_bulk_regular :
    OidIndexManager → OidDatabase → Bytes → ℕ → List GetNextBulkResult
unfolding place_behind collect_loop
get_next_bulk_regular im odb base_oid max_repeaters =
    collect_loop odb max_repeaters (drop (place_behind im.sorted_oids base_oid) im.sorted_oids)

-- The first column that is not before `col_index`, or the last column.
pub start_column : List ℕ → ℕ → ℕ → ℕ
start_column [] col_index last_col = last_col
start_column (c ∷ cols) col_index last_col =
    let later = start_column cols col_index last_col in if int_less c col_index then later else c

-- `fmt.Sprintf("%s.%d.%s", entryOID, col, row)`, with a value whose type is looked up later.
result_at : Bytes → ℕ → Bytes → Value → GetNextBulkResult
unfolding print_int
result_at entry_oid col row val = record {
  oid = entry_oid ++ b'.' ∷ (print_int col ++ b'.' ∷ row);
  value = record { type = end_of_contents; value = val };
}

-- A result, where a value was found that is not nil.
abbrev maybe_result : Bool → Bytes → ℕ → Bytes → Value → Option GetNextBulkResult
maybe_result found entry_oid col row val =
    if found && not (is_nil val) then some (result_at entry_oid col row val) else none

-- What a column adds: of the current column the next row, of a later one the first row.
pub column_result : SnmpTable → Bytes → ℕ → Bytes → ℕ → ℕ → Option GetNextBulkResult
unfolding result_at get_value get_next_row_for_column
column_result table entry_oid col_index row_index start_col col =
    let next = get_next_row_for_column table col row_index in
    let row_id = get_or table.sorted_row_ids 0 [] in
    let first = get_value table col row_id in
    if int_less col start_col && not (col == col_index)
    then none
    else if col == col_index
    then maybe_result next.2 entry_oid col next.0 next.1
    else if int_less col_index col && ltb 0 (length table.sorted_row_ids)
    then maybe_result first.1 entry_oid col row_id first.0
    else none

-- The loop over the columns; it ends when the results are as many as asked for.
pub table_loop :
    (ℕ → Option GetNextBulkResult) → ℕ → List GetNextBulkResult → List ℕ → List GetNextBulkResult
table_loop result_of max_repeaters results [] = results
table_loop result_of max_repeaters results (col ∷ cols) = elim (result_of col) [
  | none ↦ table_loop result_of max_repeaters results cols
  | some result ↦
      let more = results ++ result ∷ [] in
      elim (leb max_repeaters (length more)) [
        | true ↦ more
        | false ↦ table_loop result_of max_repeaters more cols
      ]
]

-- The traversal of a table, column by column.
pub traverse : SnmpTable → Bytes → ℕ → Bytes → ℕ → List GetNextBulkResult
unfolding start_column column_result table_loop sorted_columns
traverse table entry_oid col_index row_index max_repeaters =
    let cols = sorted_columns table in
    let start_col = start_column cols col_index (get_or cols (length cols - 1) 0) in
    table_loop (column_result table entry_oid col_index row_index start_col) max_repeaters [] cols

unfoldable pub get_next_bulk_table :
    OidIndexManager → OidDatabase → Bytes → ℕ → List GetNextBulkResult
unfolding parse_table_oid get_next_bulk_regular traverse
get_next_bulk_table im odb base_oid max_repeaters = elim (parse_table_oid base_oid) [
  | none ↦ get_next_bulk_regular im odb base_oid max_repeaters
  | some (entry_oid, col_index, row_index) ↦ elim (lookup entry_oid im.tables) [
    | none ↦ get_next_bulk_regular im odb base_oid max_repeaters
    | some table ↦ traverse table entry_oid col_index row_index max_repeaters
  ]
]

-- `GetNextBulk`. For an OID outside tables it repeats the code of `getNextBulkRegular`.
unfoldable pub get_next_bulk : OidIndexManager → OidDatabase → Bytes → ℕ → List GetNextBulkResult
unfolding is_table_oid limit_repeaters get_next_bulk_table get_next_bulk_regular
get_next_bulk im odb oid max_repeaters =
    let most = limit_repeaters max_repeaters in
    if is_table_oid im oid
    then get_next_bulk_table im odb oid most
    else get_next_bulk_regular im odb oid most
