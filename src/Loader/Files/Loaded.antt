-- ===== src/Loader/Files/Loaded.antt =====
-- internal/store/loader.go and internal/store/database.go: what a database holds that was loaded.
use mathlib.Core.List.{append-nil}
use go_snmpsim.Prelude.{
  suc, ◌≡◌, ◌↔◌, refl, true, false, List, [], ◌∷◌, ◌++◌, Bytes, is_empty, All, Mem, length,
  length-append, ltb, arith, text_eq,
}
use go_snmpsim.Oid.Render.{IsCanonical}
use go_snmpsim.Positions.Ascending.{IsAscending}
use go_snmpsim.Snmp.{OidValue, OidEntry}
use go_snmpsim.Strconv.Scan.{split}
use go_snmpsim.Database.{OidDatabase, new_oid_database, insert, sort_oids}
use go_snmpsim.Database.Walk.{next_oids}
use go_snmpsim.Database.Loaded.{insert_all, oids_of, next_oids-insert_all}
use go_snmpsim.Loader.Templates.{
  OidTemplate, collect_templates, detect_indices_from_oids, expand_templates,
}
use go_snmpsim.Loader.Snmpwalk.{insert_entries}
use go_snmpsim.Loader.Files.{load_collected, load_snmprec}

-- All entries of a record file, those of its templates last.
unfoldable pub snmprec_entries : Bytes → List OidEntry
snmprec_entries content =
    let collected = collect_templates (split 10 content) in
    collected.1 ++ expand_templates collected.0 (detect_indices_from_oids collected.1)

abbrev value_of : OidEntry → OidValue
value_of entry = record { type = entry.type; value = entry.value }

abbrev pub pairs : List OidEntry → List (Bytes × OidValue)
pairs [] = []
pairs (entry ∷ entries) = (entry.oid, value_of entry) ∷ pairs entries

insert_entries-insert_all :
    (entries : List OidEntry) (odb : OidDatabase)
    → insert_entries entries odb ≡ insert_all (pairs entries) odb
unfolding insert_entries insert_all
insert_entries-insert_all [] odb = refl
insert_entries-insert_all (entry ∷ entries) odb =
    insert_entries-insert_all entries (insert entry.oid (value_of entry) odb)

insert_entries-append :
    (xs ys : List OidEntry) (odb : OidDatabase)
    → insert_entries (xs ++ ys) odb ≡ insert_entries ys (insert_entries xs odb)
unfolding insert_entries
insert_entries-append [] ys odb = refl
insert_entries-append (x ∷ xs) ys odb = insert_entries-append xs ys (insert x.oid (value_of x) odb)

load_collected-entries :
    (templates : List OidTemplate) (regular : List OidEntry) (odb : OidDatabase)
    → let entries = regular ++ expand_templates templates (detect_indices_from_oids regular) in
      load_collected templates regular odb ≡ (insert_entries entries odb, length entries)
unfolding load_collected
load_collected-entries [] regular odb = unfold expand_templates in rw append-nil
load_collected-entries (t ∷ templates) regular odb =
    let expanded = expand_templates (t ∷ templates) (detect_indices_from_oids regular) in
    let some_template : ltb 0 (length (t ∷ templates)) ≡ true = ground arith in
    rw (some_template, insert_entries-append regular expanded odb, length-append regular expanded)

-- `loadSnmprec` inserts the entries of the file and counts them.
pub load_snmprec-entries :
    (content : Bytes) (odb : OidDatabase)
    → load_snmprec content odb
      ≡ (insert_entries (snmprec_entries content) odb, length (snmprec_entries content))
unfolding load_snmprec snmprec_entries
load_snmprec-entries content odb =
    let collected = collect_templates (split 10 content) in
    load_collected-entries collected.0 collected.1 odb

-- If the OIDs of a record file, with those of its templates, are in canonical form and not empty,
-- then loading the file into a new database and sorting it gives a database in which a client that
-- follows `GetNext` from the empty text sees exactly these OIDs, each once and in ascending order; the
-- count that is returned is the number of entries.
pub next_oids-load_snmprec :
    (content : Bytes)
    → let oids = oids_of (pairs (snmprec_entries content)) in
      let loaded = load_snmprec content new_oid_database in
      let odb = sort_oids loaded.0 in
      All IsCanonical oids
      → All (λ s. is_empty s ≡ false) oids
      → (next_oids (suc (length odb.sorted_oids)) odb [] ≡ odb.sorted_oids)
        × IsAscending odb.sorted_oids
        × ((a : Bytes) → Mem a odb.sorted_oids ↔ Mem a oids)
        × (loaded.1 ≡ length (snmprec_entries content))
next_oids-load_snmprec content c named =
    let entries = snmprec_entries content in
    let walked = next_oids-insert_all (pairs entries) c named in
    rw
      (
        load_snmprec-entries content new_oid_database,
        insert_entries-insert_all entries new_oid_database,
      )
      (walked.0, walked.1, walked.2, refl)
