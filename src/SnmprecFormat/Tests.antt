-- ===== src/SnmprecFormat/Tests.antt =====
-- Concrete records.
use go_snmpsim.Prelude.{
  ◌-◌, ◌^◌, ◌≡◌, refl, some, [], ◌∷◌, codes, arith, ltb, inl, inr, if◌then◌else◌,
}
use go_snmpsim.Oid.{is_oid_less}
use go_snmpsim.Oid.Render.{IsCanonical, render, decimal, render_tail, render-IsCanonical}
use go_snmpsim.Snmp.{counter32, integer, uint32, int}
use go_snmpsim.Strconv.{atoi, print_int, split_n, cut}
use go_snmpsim.Strconv.Scan.{split}
use go_snmpsim.SnmprecFormat.{
  Entry, write_file, sign_of, below, compare_oid, entry_from_pdu, read_file,
}
use go_snmpsim.Sort.{quick_sort_all, quick_sort}
use go_snmpsim.Loader.Templates.{collect_templates}
use go_snmpsim.SnmprecFormat.Compare.{compare_oid-is_oid_less}
use go_snmpsim.SnmprecFormat.Replay.{replayed-counter}

nine-IsCanonical : IsCanonical (codes "1.9")
nine-IsCanonical =
    unfold render decimal render_tail in
    render-IsCanonical (1 ∷ 9 ∷ []) (omega arith, (omega arith, tt))

ten-IsCanonical : IsCanonical (codes "1.10")
ten-IsCanonical =
    unfold render decimal render_tail in
    render-IsCanonical (1 ∷ 10 ∷ []) (omega arith, (omega arith, tt))

compare_oid-is_oid_less_example :
    compare_oid (codes "1.9") (codes "1.10")
    ≡ sign_of (is_oid_less (codes "1.9") (codes "1.10")) (is_oid_less (codes "1.10") (codes "1.9"))
compare_oid-is_oid_less_example =
    compare_oid-is_oid_less (codes "1.9") (codes "1.10") nine-IsCanonical ten-IsCanonical refl refl

numeric_order : compare_oid (codes "1.9") (codes "1.10") ≡ below
unfolding compare_oid split atoi
numeric_order = refl

replayed-counter_example :
    (entry : Entry) × (entry_from_pdu (codes ".1.9") counter32 (uint32 4000000000) ≡ some entry)
    × (collect_templates (split 10 (write_file (entry ∷ []))) ≡ (
      [],
      (record {
        oid = codes "1.9";
        type = counter32;
        value = uint32 (if ltb 4000000000 (2 ^ 31) then 4000000000 else 2 ^ 31 - 1);
      })
          ∷ [],
    ))
replayed-counter_example =
    replayed-counter (codes "1.9") counter32 4000000000 (inl refl, (inr refl, (inl refl, tt))) refl
      (inl refl) (omega arith)

recorded :
    entry_from_pdu (codes ".1.9") integer (int 5)
    ≡ some (record { oid = codes "1.9"; type = codes "integer"; value = codes "5" })
unfolding entry_from_pdu print_int decimal
recorded = refl

one_record :
    read_file (some (codes "# a\n.1.9|Integer| 5\n"))
    ≡ some ((record { oid = codes "1.9"; type = codes "integer"; value = codes "5" }) ∷ [])
unfolding read_file split split_n cut quick_sort_all quick_sort
one_record = refl
