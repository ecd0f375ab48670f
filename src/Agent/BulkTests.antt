-- ===== src/Agent/BulkTests.antt =====
-- A GETBULK to a concrete agent with an index.
use go_snmpsim.Prelude.{
  ℕ, zero, suc, ◌≡◌, ◌∙◌, refl, sym, false, none, some, List, [], ◌∷◌, Bytes, codes, bytes_eq, All,
  is_empty, arith, lookup, text_eq, Bool-cases, inl, inr,
}
use go_snmpsim.Snmp.{Pdu, OidValue, integer, int}
use go_snmpsim.Oid.{is_oid_less}
use go_snmpsim.Oid.Render.{IsCanonical, render, decimal, render_tail, render-IsCanonical}
use go_snmpsim.Strconv.Scan.{split, scan_int}
use go_snmpsim.Positions.Ascending.{IsAscending}
use go_snmpsim.Database.{OidDatabase, new_oid_database, insert, get}
use go_snmpsim.Database.Consistent.{IsConsistent, new-IsConsistent, insert-IsConsistent}
use go_snmpsim.Database.Shards.{IsSharded, get-new, get-insert}
use go_snmpsim.Table.Structure.{is_table_entry}
use go_snmpsim.Agent.{VirtualAgent, get_oid_value, get_normal_value, get_system_oid, normalize_oid}
use go_snmpsim.Agent.Handlers.{is_end, response, handle_get_bulk_request}
use go_snmpsim.Agent.Handlers.Get.{names_of}
use go_snmpsim.Agent.Handlers.Bulk.{is_end-false, HasNoEnd}
use go_snmpsim.Agent.Handlers.Indexed.{index_of, indexed, handle_get_bulk_request-served}
use go_snmpsim.Agent.Tests.{agent, still, zero_source}

one_nine-IsCanonical : IsCanonical (codes "1.9")
one_nine-IsCanonical =
    unfold render decimal render_tail in
    render-IsCanonical (1 ∷ 9 ∷ []) (omega arith, (omega arith, tt))

one_ten-IsCanonical : IsCanonical (codes "1.10.2")
one_ten-IsCanonical =
    unfold render decimal render_tail in
    render-IsCanonical (1 ∷ 10 ∷ 2 ∷ []) (omega arith, (omega arith, (omega arith, tt)))

abbrev value_of : ℕ → OidValue
value_of n = record { type = integer; value = int n }

abbrev one : OidDatabase
one = insert (codes "1.9") (value_of 1) new_oid_database

abbrev filled : OidDatabase
filled = insert (codes "1.10.2") (value_of 2) one

one-IsConsistent : IsConsistent one
one-IsConsistent = insert-IsConsistent _ new-IsConsistent (codes "1.9") (value_of 1)

filled-IsConsistent : IsConsistent filled
filled-IsConsistent = insert-IsConsistent _ one-IsConsistent (codes "1.10.2") (value_of 2)

filled-IsAscending : IsAscending filled.sorted_oids
unfolding insert new_oid_database
filled-IsAscending = record {
  canonical = (one_nine-IsCanonical, (one_ten-IsCanonical, tt));
  ordered = (((unfold is_oid_less in refl), tt), (tt, tt));
}

all_named : All (λ oid. is_empty oid ≡ false) filled.sorted_oids
unfolding insert new_oid_database
all_named = (refl, (refl, tt))

no_rows : All (λ oid. is_table_entry oid ≡ false) filled.sorted_oids
unfolding insert new_oid_database is_table_entry split scan_int
no_rows = (refl, (refl, tt))

value-is_end : (n : ℕ) → is_end (value_of n) ≡ false
value-is_end n = is_end-false (value_of n) (λ e. cc)

-- What is inserted has no end, if what was there has none.
insert-is_end :
    (odb : OidDatabase) (sharded : IsSharded odb) (oid j : Bytes) (n : ℕ) (v : OidValue)
    → (get odb j ≡ some v → is_end v ≡ false)
    → get (insert oid (value_of n) odb) j ≡ some v
    → is_end v ≡ false
insert-is_end odb sharded oid j n v before e =
    let read = sym (get-insert odb sharded oid (value_of n) j) ∙ e in
    elim (Bool-cases (bytes_eq oid j)) [
      | inl f ↦
          let found : some (value_of n) ≡ some v = rw f at read in
          let same : value_of n ≡ v = cc in rw (← same) (value-is_end n)
      | inr f ↦ before (rw f at read)
    ]

filled-is_end : (oid : Bytes) (v : OidValue) → get filled oid ≡ some v → is_end v ≡ false
filled-is_end oid v = insert-is_end one one-IsConsistent.sharded (codes "1.10.2") oid 2 v (
    insert-is_end new_oid_database new-IsConsistent.sharded (codes "1.9") oid 1 v
      (λ e. let no : none ≡ some v = sym (get-new oid) ∙ e in cc))

-- An agent whose overlay has both OIDs.
abbrev overlaid_agent : VirtualAgent
overlaid_agent = record agent {
  device_overlay = (codes "1.9", int 5) ∷ (codes "1.10.2", int 6) ∷ [];
}

texts-is_end :
    (w : Unit {0})
    → (is_end (get_oid_value still overlaid_agent (some filled) (codes "1.9") w).0 ≡ false)
      × (is_end (get_oid_value still overlaid_agent (some filled) (codes "1.10.2") w).0 ≡ false)
unfolding get_oid_value get_normal_value get_system_oid normalize_oid lookup
texts-is_end w = (
  is_end-false (get_oid_value still overlaid_agent (some filled) (codes "1.9") w).0 (λ e. cc),
  is_end-false (get_oid_value still overlaid_agent (some filled) (codes "1.10.2") w).0 (λ e. cc),
)

filled-HasNoEnd : HasNoEnd still overlaid_agent filled
unfolding insert new_oid_database
filled-HasNoEnd zero w h = (texts-is_end w).0
filled-HasNoEnd (suc zero) w h = (texts-is_end w).1
filled-HasNoEnd (suc (suc k)) w h = absurd (omega arith)

handle_get_bulk_request-served_example :
    (vars : List Pdu) × (w' : Unit {0}) × (handle_get_bulk_request zero_source still overlaid_agent
        0
        (some (index_of filled))
        (some filled)
        0
        1
        (codes "1.9" ∷ [])
        (record { binder = none; world = tt })
      ≡ (response vars 0 0, record { binder = none; world = w' }))
    × (names_of vars ≡ codes "1.10.2" ∷ [])
unfolding insert new_oid_database
handle_get_bulk_request-served_example =
    handle_get_bulk_request-served zero_source still overlaid_agent 0 filled
      (some (index_of filled)) 0 1 tt filled-IsAscending all_named filled-HasNoEnd (omega arith)
      (indexed filled-IsConsistent no_rows filled-is_end (omega arith))
