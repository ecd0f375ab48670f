-- ===== src/Table/Tests.antt =====
-- A concrete table.
use go_snmpsim.Prelude.{
  ℕ, ◌≡◌, refl, true, [], ◌∷◌, Bytes, codes, arith, lookup, put, text_eq, nat_eq,
}
use go_snmpsim.Snmp.{int}
use go_snmpsim.Oid.{is_oid_less}
use go_snmpsim.Oid.Render.{IsCanonical, render, decimal, render_tail, render-IsCanonical}
use go_snmpsim.Sort.{quick_sort_all, quick_sort, partition, partition_loop, swap}
use go_snmpsim.Positions.Ascending.{IsAscending}
use go_snmpsim.Table.{
  SnmpTable, TableColumn, TableRow, new_snmp_table, add_row, get_value, cell_oid, get_next_value,
}
use go_snmpsim.Table.Rows.{get_next_value-skips}

abbrev row_of : Bytes → ℕ → TableRow
row_of index n = record { index = index; indices = []; values = (2, int n) ∷ [] }

abbrev descr : TableColumn
descr = record {
  col_index = 2;
  oid = codes "1.3.1.2";
  name = codes "ifDescr";
  syntax = [];
  access = [];
  max_access = [];
}

abbrev interfaces : SnmpTable
interfaces = record {
  base_oid = codes "1.3";
  entry_oid = codes "1.3.1";
  name = codes "ifTable";
  description = [];
  columns = (2, descr) ∷ [];
  rows = (codes "10", row_of (codes "10") 8) ∷ (codes "2", row_of (codes "2") 7) ∷ [];
  sorted_row_ids = codes "2" ∷ codes "10" ∷ [];
  min_row = codes "2";
  max_row = codes "10";
}

two-IsCanonical : IsCanonical (codes "2")
two-IsCanonical = unfold render decimal render_tail in render-IsCanonical (2 ∷ []) (omega arith, tt)

ten-IsCanonical : IsCanonical (codes "10")
ten-IsCanonical =
    unfold render decimal render_tail in render-IsCanonical (10 ∷ []) (omega arith, tt)

one-IsCanonical : IsCanonical (codes "1")
one-IsCanonical = unfold render decimal render_tail in render-IsCanonical (1 ∷ []) (omega arith, tt)

interfaces-IsAscending : IsAscending interfaces.sorted_row_ids
interfaces-IsAscending = record {
  canonical = (two-IsCanonical, (ten-IsCanonical, tt));
  ordered = (((unfold is_oid_less in refl), tt), (tt, tt));
}

-- Rows are in numeric order.
rows_in_order :
    (add_row (codes "2") [] (add_row (codes "10") [] (new_snmp_table [] [] []))).sorted_row_ids
    ≡ codes "2" ∷ codes "10" ∷ []
unfolding add_row new_snmp_table quick_sort_all quick_sort partition partition_loop swap is_oid_less
    put
rows_in_order = refl

one_before_two : is_oid_less (codes "1") (codes "2") ≡ true
unfolding is_oid_less
one_before_two = refl

ten_has_value : (get_value interfaces 2 (codes "10")).1 ≡ true
unfolding get_value lookup
ten_has_value = refl

get_next_value-skips_example :
    get_next_value interfaces 2 (codes "1")
    ≡ (cell_oid interfaces 2 (codes "10"), (get_value interfaces 2 (codes "10")).0, true)
get_next_value-skips_example =
    get_next_value-skips interfaces 2 0 (codes "1") interfaces-IsAscending one-IsCanonical
      (omega arith) (λ j h. absurd (omega arith)) one_before_two ten_has_value
