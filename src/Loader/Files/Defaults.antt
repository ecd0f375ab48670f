-- ===== src/Loader/Files/Defaults.antt =====
-- internal/store/database.go: the values of a database that `LoadOIDDatabase` made.
use go_snmpsim.Prelude.{
  ℕ, ◌≡◌, refl, ap, ◌∙◌, not, ◌&&◌, Option, none, some, List, [], ◌∷◌, Bytes, codes, is_empty,
  bytes_eq, if_either, if◌then◌else◌,
}
use go_snmpsim.Snmp.{OidValue, OidEntry}
use go_snmpsim.Strconv.{contains_byte}
use go_snmpsim.Strconv.Substrings.{contains}
use go_snmpsim.Database.{OidDatabase, new_oid_database, insert, get}
use go_snmpsim.Database.Shards.{IsSharded, get-insert, insert-IsSharded, new-IsSharded}
use go_snmpsim.Database.Visit.{walk-keeps}
use go_snmpsim.Database.Consistent.{get-sort_oids}
use go_snmpsim.Loader.Snmpwalk.{insert_entries, parse_snmpwalk_output}
use go_snmpsim.Loader.Files.{
  load_snmprec, load_snmprec_file, defaults, load_default_oids, from_file, load_oid_database, merge,
  merged, insert_and_count,
}
use go_snmpsim.Loader.Files.Loaded.{snmprec_entries, load_snmprec-entries}

-- The value of the last entry for an OID, or `before`.
abbrev pub last_of : List OidEntry → Bytes → Option OidValue → Option OidValue
last_of [] oid before = before
last_of (entry ∷ entries) oid before = last_of entries oid (
    if bytes_eq entry.oid oid
    then some (record { type = entry.type; value = entry.value })
    else before)

get-insert_entries :
    (entries : List OidEntry) (odb : OidDatabase) (oid : Bytes)
    → IsSharded odb
    → get (insert_entries entries odb) oid ≡ last_of entries oid (get odb oid)
unfolding insert_entries
get-insert_entries [] odb oid h = refl
get-insert_entries (entry ∷ entries) odb oid h =
    let value : OidValue = record { type = entry.type; value = entry.value } in
    get-insert_entries entries (insert entry.oid value odb) oid
      (insert-IsSharded odb h entry.oid value)
    ∙ ap (last_of entries oid) (get-insert odb h entry.oid value oid)

insert_entries-IsSharded :
    (entries : List OidEntry) (odb : OidDatabase)
    → IsSharded odb
    → IsSharded (insert_entries entries odb)
unfolding insert_entries
insert_entries-IsSharded [] odb h = h
insert_entries-IsSharded (entry ∷ entries) odb h =
    let value : OidValue = record { type = entry.type; value = entry.value } in
    insert_entries-IsSharded entries (insert entry.oid value odb)
      (insert-IsSharded odb h entry.oid value)

merge-IsSharded : (parsed odb : OidDatabase) → IsSharded odb → IsSharded (merge parsed odb).0
unfolding merge
merge-IsSharded parsed odb h =
    walk-keeps (λ (s : OidDatabase × ℕ). IsSharded s.0) parsed insert_and_count
      (λ oid value s kept. insert-IsSharded s.0 kept oid value) (odb, 0) h

merged-IsSharded :
    (odb : OidDatabase) (parsed : Option OidDatabase)
    → IsSharded odb
    → IsSharded (merged odb parsed).0
merged-IsSharded odb none h = h
merged-IsSharded odb (some parsed) h = merge-IsSharded parsed odb h

load_snmprec-IsSharded :
    (text : Bytes) (odb : OidDatabase) → IsSharded odb → IsSharded (load_snmprec text odb).0
load_snmprec-IsSharded text odb h =
    rw (load_snmprec-entries text odb) (insert_entries-IsSharded (snmprec_entries text) odb h)

load_snmprec_file-IsSharded :
    (text : Option Bytes) (odb : OidDatabase)
    → IsSharded odb
    → IsSharded (load_snmprec_file text odb).0
unfolding load_snmprec_file
load_snmprec_file-IsSharded none odb h = h
load_snmprec_file-IsSharded (some text) odb h =
    if_either (λ (r : OidDatabase × Option ℕ). IsSharded r.0)
      (contains text (codes " = ") && not (contains_byte b'|' text))
      (merged-IsSharded odb (parse_snmpwalk_output text) h) (load_snmprec-IsSharded text odb h)

from_file-IsSharded :
    (read_file : Bytes → Option Bytes) (file : Bytes) → IsSharded (from_file read_file file)
unfolding from_file
from_file-IsSharded read_file file =
    if_either IsSharded (is_empty file) new-IsSharded
      (load_snmprec_file-IsSharded (read_file file) new_oid_database new-IsSharded)

-- In a database that `LoadOIDDatabase` made, the value of an OID is that of the last default for it,
-- and only for an OID without a default what the file gave it.
pub get-load_oid_database :
    (read_file : Bytes → Option Bytes) (file oid : Bytes)
    → get (load_oid_database read_file file) oid
      ≡ last_of defaults oid (get (from_file read_file file) oid)
unfolding load_oid_database load_default_oids
get-load_oid_database read_file file oid =
    get-sort_oids (insert_entries defaults (from_file read_file file)) oid
    ∙ get-insert_entries defaults (from_file read_file file) oid
        (from_file-IsSharded read_file file)
