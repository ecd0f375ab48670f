-- ===== src/Index/Bulk/Bounds.antt =====
-- internal/store/index_manager.go: how many results `GetNextBulk` returns.
use go_snmpsim.Prelude.{
  ℕ, zero, suc, ◌+◌, ◌^◌, ◌≤◌, ◌<◌, ◌≡◌, true, false, Option, List, [], ◌∷◌, ◌++◌, Bytes, text_eq,
  lookup, length, get_or, ◌-◌, length-append, leb, arith, Option-cases, Bool-cases, inl, inr,
  if_either,
}
use go_snmpsim.Oid.{int_less}
use go_snmpsim.Database.{OidDatabase, get}
use go_snmpsim.Table.{SnmpTable, sorted_columns}
use go_snmpsim.Table.Structure.{parse_table_oid}
use go_snmpsim.Index.{OidIndexManager, is_table_oid}
use go_snmpsim.Index.Bulk.{
  GetNextBulkResult, limit_repeaters, collect_loop, table_loop, start_column, column_result,
  traverse, get_next_bulk_regular, get_next_bulk_table, get_next_bulk,
}

collect_loop-length-le :
    (odb : OidDatabase) (n : ℕ) (oids : List Bytes) → length (collect_loop odb n oids) ≤ n
unfolding collect_loop
collect_loop-length-le odb zero oids = omega arith
collect_loop-length-le odb (suc n) [] = omega arith
collect_loop-length-le odb (suc n) (oid ∷ oids) = elim (Option-cases (get odb oid)) [
  | inl e ↦ rw (e, collect_loop) (collect_loop-length-le odb (suc n) oids)
  | inr (value, e) ↦ rw (e, collect_loop) (omega (arith, collect_loop-length-le odb n oids))
]

table_loop-length-le :
    (result_of : ℕ → Option GetNextBulkResult) (n : ℕ) (results : List GetNextBulkResult)
    (cols : List ℕ)
    → length results < n
    → length (table_loop result_of n results cols) ≤ n
unfolding table_loop
table_loop-length-le result_of n results [] h = omega arith
table_loop-length-le result_of n results (col ∷ cols) h = elim (Option-cases (result_of col)) [
  | inl e ↦ rw (e, table_loop) (table_loop-length-le result_of n results cols h)
  | inr (result, e) ↦
      let more = results ++ result ∷ [] in
      let longer : length more ≡ length results + 1 = length-append results (result ∷ []) in
      elim (Bool-cases (leb n (length more))) [
        | inl full ↦ rw (e, table_loop, full) (omega arith)
        | inr room ↦
            rw (e, table_loop, room) (table_loop-length-le result_of n more cols (ground arith))
      ]
]

traverse-length-le :
    (table : SnmpTable) (entry_oid : Bytes) (col_index : ℕ) (row_index : Bytes) (n : ℕ)
    → 1 ≤ n
    → length (traverse table entry_oid col_index row_index n) ≤ n
unfolding traverse
traverse-length-le table entry_oid col_index row_index n h =
    let cols = sorted_columns table in
    let start_col = start_column cols col_index (get_or cols (length cols - 1) 0) in
    table_loop-length-le (column_result table entry_oid col_index row_index start_col) n [] cols
      (omega arith)

pub limit_repeaters_range :
    (n : ℕ)
    → n < 2 ^ 64
    → (1 ≤ limit_repeaters n)
      × (limit_repeaters n ≤ 128)
      × (int_less n 1 ≡ false → limit_repeaters n ≤ n)
      × (int_less n 1 ≡ true → limit_repeaters n ≡ 1)
unfolding limit_repeaters
limit_repeaters_range n h = (ground arith, ground arith, λ e. ground arith, λ e. ground arith)

get_next_bulk_regular-length-le :
    (im : OidIndexManager) (odb : OidDatabase) (oid : Bytes) (n : ℕ)
    → length (get_next_bulk_regular im odb oid n) ≤ n
unfolding get_next_bulk_regular
get_next_bulk_regular-length-le im odb oid n = collect_loop-length-le odb n _

get_next_bulk_table-length-le :
    (im : OidIndexManager) (odb : OidDatabase) (oid : Bytes) (n : ℕ)
    → 1 ≤ n
    → length (get_next_bulk_table im odb oid n) ≤ n
unfolding get_next_bulk_table
get_next_bulk_table-length-le im odb oid n h = elim (Option-cases (parse_table_oid oid)) [
  | inl e ↦ rw (length, e) (get_next_bulk_regular-length-le im odb oid n)
  | inr ((entry_oid, col_index, row_index), e) ↦ elim (Option-cases (lookup entry_oid im.tables)) [
    | inl absent ↦ rw (length, e, absent) (get_next_bulk_regular-length-le im odb oid n)
    | inr (table, found) ↦
        rw (length, e, found) (traverse-length-le table entry_oid col_index row_index n h)
  ]
]

-- Whatever number of repetitions is asked for, `GetNextBulk` returns at most 128 results. It returns
-- no more than were asked for, if that is at least one, and at most one for a number below one.
pub get_next_bulk-length-le :
    (im : OidIndexManager) (odb : OidDatabase) (oid : Bytes) (n : ℕ)
    → n < 2 ^ 64
    → let results = get_next_bulk im odb oid n in
      (length results ≤ 128)
      × (int_less n 1 ≡ false → length results ≤ n)
      × (int_less n 1 ≡ true → length results ≤ 1)
unfolding get_next_bulk
get_next_bulk-length-le im odb oid n h =
    let most = limit_repeaters n in
    let range = limit_repeaters_range n h in
    let short : length (get_next_bulk im odb oid n) ≤ most =
      if_either (λ (r : List GetNextBulkResult). length r ≤ most) (is_table_oid im oid)
        (get_next_bulk_table-length-le im odb oid most range.0)
        (get_next_bulk_regular-length-le im odb oid most) in
    (
      omega (arith, range.1, short),
      λ e. omega (arith, range.2 e, short),
      λ e. omega (arith, range.3 e, short),
    )
