-- ===== src/Table/Rows.antt =====
-- internal/store/table.go: the rows of a table and the way through a column.
use go_snmpsim.Prelude.{
  ◌-◌, drop-get_or, drop_all, ℕ, zero, suc, ◌+◌, ◌≤◌, ◌<◌, ◌≡◌, refl, Bool, ◌&&◌, if◌then◌else◌,
  true, false, List, [], All-get_or, Bytes, Map, text_eq, length, get_or, drop, arith, ltb, ltb→lt,
  lt→ltb, inl, inr, Bool-cases, ℕ_trichotomy,
}
use go_snmpsim.Oid.{is_oid_less}
use go_snmpsim.Oid.Components.{IsOid}
use go_snmpsim.Oid.Compare.{is_oid_less-IsOrder}
use go_snmpsim.Oid.Render.{IsCanonical}
use go_snmpsim.Sort.Sorted.{Sorts, quick_sort_all-Sorts}
use go_snmpsim.Positions.Place.{search_oid_position-place, search_oid_position-at}
use go_snmpsim.Positions.Ascending.{Before, Before-asym, IsAscending}
use go_snmpsim.Snmp.{Value, nil}
use go_snmpsim.Table.{
  SnmpTable, keys, add_row, get_value, cell_oid, get_next_value, next_column, next_row_loop,
  get_next_row_for_column,
}

-- After a row was added, the list of rows is a permutation of the keys of the rows, in which no row
-- comes before an earlier one, if all are in dotted decimal.
pub add_row-Sorts :
    (row_index : Bytes) (values : Map ℕ Value) (t : SnmpTable)
    → let after = add_row row_index values t in
      Sorts [] is_oid_less IsOid (keys after.rows) 0 (length (keys after.rows)) after.sorted_row_ids
unfolding add_row
add_row-Sorts row_index values t = quick_sort_all-Sorts [] is_oid_less IsOid is_oid_less-IsOrder _

-- What is found for a column behind place `k`: the first row there that has a value, or nothing.
pub data IsNextRow (t : SnmpTable) (col k : ℕ) (found : Bytes × Value × Bool) : Type 0 where
  row :
      (i : ℕ)
      → k < i
      → i < length t.sorted_row_ids
      → found
        ≡ (get_or t.sorted_row_ids i [], (get_value t col (get_or t.sorted_row_ids i [])).0, true)
      → (get_value t col (get_or t.sorted_row_ids i [])).1 ≡ true
      → ((j : ℕ) → k < j → j < i → (get_value t col (get_or t.sorted_row_ids j [])).1 ≡ false)
      → IsNextRow t col k found
  no_row :
      found ≡ ([], nil, false)
      → ((j : ℕ)
          → k < j
          → j < length t.sorted_row_ids
          → (get_value t col (get_or t.sorted_row_ids j [])).1 ≡ false)
      → IsNextRow t col k found

module _ (t : SnmpTable) (col : ℕ) where
  abbrev ids : List Bytes
  ids = t.sorted_row_ids

  abbrev filled : ℕ → Bool
  filled i = (get_value t col (get_or ids i [])).1

  -- From place `m` on, if no row between `k` and `m` has a value.
  next_row_loop-IsNextRow :
      (k m fuel : ℕ)
      → length ids - m ≤ fuel
      → k < m
      → ((j : ℕ) → k < j → j < m → filled j ≡ false)
      → IsNextRow t col k (next_row_loop t col (drop m ids))
  unfolding next_row_loop
  next_row_loop-IsNextRow k m zero h lt none_yet =
      rw (drop_all ids m (omega arith)) (no_row refl (λ j p q. none_yet j p (omega arith)))
  next_row_loop-IsNextRow k m (suc fuel) h lt none_yet = elim (Bool-cases (ltb m (length ids))) [
    | inl more ↦ elim (Bool-cases (filled m)) [
      | inl e ↦
          rw (drop-get_or ids m [] (ltb→lt _ _ more), next_row_loop, e)
            (row m lt (ltb→lt _ _ more) refl e none_yet)
      | inr e ↦
          rw (drop-get_or ids m [] (ltb→lt _ _ more), next_row_loop, e)
            (next_row_loop-IsNextRow k (suc m) fuel (omega arith) (omega arith) (λ j p q.
              elim (ℕ_trichotomy j m) [
                | inl less ↦ none_yet j p less
                | inr (inl same) ↦ rw same e
                | inr (inr gt) ↦ absurd (omega arith)
              ]))
    ]
    | inr last ↦
        rw (drop_all ids m (ground arith)) (no_row refl (λ j p q. none_yet j p (ground arith)))
  ]

-- From a row of an ascending table `GetNextRowForColumn` goes to the first row behind it that has a
-- value in the column, with that value, and finds none if no row behind it has one.
pub get_next_row_for_column-IsNextRow :
    (t : SnmpTable) (col k : ℕ)
    → IsAscending t.sorted_row_ids
    → k < length t.sorted_row_ids
    → IsNextRow t col k (get_next_row_for_column t col (get_or t.sorted_row_ids k []))
unfolding get_next_row_for_column
get_next_row_for_column-IsNextRow t col k a h = rw (search_oid_position-at t.sorted_row_ids k a h) (
    next_row_loop-IsNextRow t col k (k + 1) (length t.sorted_row_ids) (omega arith) (omega arith)
      (λ j p q. absurd (omega arith)))

-- From a row of an ascending table `GetNextValue` goes to the next row of the same column, if there
-- is a value, and else to what there is in the next column.
pub get_next_value-at :
    (t : SnmpTable) (col k : ℕ)
    → IsAscending t.sorted_row_ids
    → k < length t.sorted_row_ids
    → let next = get_or t.sorted_row_ids (suc k) [] in
      get_next_value t col (get_or t.sorted_row_ids k []) ≡ (
        if ltb (suc k) (length t.sorted_row_ids) && (get_value t col next).1
        then (cell_oid t col next, (get_value t col next).0, true)
        else next_column t col)
unfolding get_next_value
get_next_value-at t col k a h =
    let step : k + 1 ≡ suc k = omega arith in
    rw (search_oid_position-at t.sorted_row_ids k a h, step)

-- Between two rows of an ascending table `GetNextValue` skips one: for a row index that is not in the
-- table it answers the row behind the next one, if that has a value in the column, although the next
-- one comes after the index.
pub get_next_value-skips :
    (t : SnmpTable) (col k : ℕ) (row_index : Bytes)
    → IsAscending t.sorted_row_ids
    → IsCanonical row_index
    → suc k < length t.sorted_row_ids
    → ((j : ℕ) → j < k → Before (get_or t.sorted_row_ids j []) row_index)
    → Before row_index (get_or t.sorted_row_ids k [])
    → (get_value t col (get_or t.sorted_row_ids (suc k) [])).1 ≡ true
    → let skipping = get_or t.sorted_row_ids (suc k) [] in
      get_next_value t col row_index ≡ (cell_oid t col skipping, (get_value t col skipping).0, true)
unfolding get_next_value
get_next_value-skips t col k row_index a c h before after full =
    let step : k + 1 ≡ suc k = omega arith in
    let entry = All-get_or [] IsCanonical t.sorted_row_ids k a.canonical (omega arith) in
    let here = Before-asym row_index (get_or t.sorted_row_ids k []) c entry after in
    rw (
      search_oid_position-place t.sorted_row_ids row_index k a c (omega arith) before here,
      step,
      lt→ltb _ _ h,
      full,
    )
