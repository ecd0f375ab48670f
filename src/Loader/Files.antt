-- ===== src/Loader/Files.antt =====
-- internal/store/loader.go and internal/store/database.go: the files that a database and a device
-- mapping are loaded from. The files are a function from paths to their bytes, `none` for one that
-- cannot be read; an error is `none`.
pub mod Loaded
pub mod Defaults
use Prim.Native.String.{String}
use go_snmpsim.Prelude.{
  ℕ, ◌+◌, Bool, true, false, not, ◌&&◌, Option, none, some, List, [], ◌∷◌, ◌++◌, Bytes, codes,
  is_empty, trim_space, length, ltb, if◌then◌else◌,
}
use go_snmpsim.Snmp.{
  Asn1Ber, octet_string, object_identifier, integer, timeticks, counter32, Value, string, int,
  uint32, OidValue, OidEntry,
}
use go_snmpsim.Strconv.{contains_byte}
use go_snmpsim.Strconv.Scan.{split}
use go_snmpsim.Strconv.Substrings.{contains}
use go_snmpsim.Database.{OidDatabase, new_oid_database, insert, sort_oids, walk}
use go_snmpsim.DeviceMapping.{DeviceOidMapping, new_device_oid_mapping, add_entry}
use go_snmpsim.DeviceMapping.Parse.{is_device_oid, parse_device_oid}
use go_snmpsim.Loader.{is_skipped}
use go_snmpsim.Loader.Templates.{
  OidTemplate, collect_templates, detect_indices_from_oids, expand_templates,
}
use go_snmpsim.Loader.Snmpwalk.{insert_entries, parse_snmpwalk_output}

-- The part of `loadSnmprec` behind `CollectTemplates`: the database and the count.
unfoldable pub load_collected : List OidTemplate → List OidEntry → OidDatabase → OidDatabase × ℕ
unfolding detect_indices_from_oids expand_templates insert_entries
load_collected templates regular_entries odb =
    let loaded = insert_entries regular_entries odb in
    let indices = detect_indices_from_oids regular_entries in
    let expanded = expand_templates templates indices in
    if ltb 0 (length templates)
    then (insert_entries expanded loaded, length regular_entries + length expanded)
    else (loaded, length regular_entries)

-- `loadSnmprec`, which has no errors.
unfoldable pub load_snmprec : Bytes → OidDatabase → OidDatabase × ℕ
unfolding split collect_templates load_collected
load_snmprec content odb =
    let collected = collect_templates (split 10 content) in
    load_collected collected.0 collected.1 odb

abbrev pub insert_and_count : Bytes → OidValue → OidDatabase × ℕ → (OidDatabase × ℕ) × Bool
insert_and_count oid value (odb, count) = ((insert oid value odb, count + 1), true)

-- `parsedDB.Walk` with a callback that inserts and counts.
unfoldable pub merge : OidDatabase → OidDatabase → OidDatabase × ℕ
unfolding walk insert
merge parsed odb = walk parsed insert_and_count (odb, 0)

abbrev pub merged : OidDatabase → Option OidDatabase → OidDatabase × Option ℕ
merged odb none = (odb, none)
merged odb (some parsed) = ((merge parsed odb).0, some (merge parsed odb).1)

-- `LoadSNMPrecFile`, of the bytes that were read.
unfoldable pub load_snmprec_file : Option Bytes → OidDatabase → OidDatabase × Option ℕ
unfolding contains contains_byte merge parse_snmpwalk_output load_snmprec
load_snmprec_file none odb = (odb, none)
load_snmprec_file (some text) odb =
    if contains text (codes " = ") && not (contains_byte b'|' text)
    then merged odb (parse_snmpwalk_output text)
    else ((load_snmprec text odb).0, some (load_snmprec text odb).1)

-- The loop of `LoadDeviceMappings`: a line that is refused adds nothing.
mapping_loop : List Bytes → DeviceOidMapping → DeviceOidMapping
unfolding trim_space is_device_oid parse_device_oid add_entry
mapping_loop [] mapping = mapping
mapping_loop (l ∷ lines) mapping =
    let line = trim_space l in
    let skip = mapping_loop lines mapping in
    let next = mapping_loop lines (add_entry (parse_device_oid line) mapping) in
    if is_skipped line then skip else if is_device_oid line then next else skip

unfoldable pub load_device_mappings : Option Bytes → Option DeviceOidMapping
unfolding mapping_loop split new_device_oid_mapping
load_device_mappings none = none
load_device_mappings (some text) = some (mapping_loop (split 10 text) new_device_oid_mapping)

abbrev default_entry : String → Asn1Ber → Value → OidEntry
default_entry oid type value = record { oid = codes oid; type = type; value = value }

abbrev pub defaults : List OidEntry
defaults =
    default_entry "1.3.6.1.2.1.1.1.0" octet_string (string (codes "Simulated SNMP Agent"))
    ∷ default_entry "1.3.6.1.2.1.1.2.0" object_identifier (string (codes "1.3.6.1.4.1.9.9.46.1"))
    ∷ default_entry "1.3.6.1.2.1.1.4.0" octet_string (string (codes "admin@example.com"))
    ∷ default_entry "1.3.6.1.2.1.1.7.0" integer (int 72)
    ∷ default_entry "1.3.6.1.2.1.1.8.0" timeticks (uint32 0)
    ∷ default_entry "1.3.6.1.2.1.1.9.1.2.1" object_identifier
        (string (codes "1.3.6.1.6.3.1.1.4.1.0"))
    ∷ default_entry "1.3.6.1.2.1.2.1.0" integer (int 2)
    ∷ default_entry "1.3.6.1.2.1.2.2.1.1.1" integer (int 1)
    ∷ default_entry "1.3.6.1.2.1.2.2.1.2.1" octet_string (string (codes "eth0"))
    ∷ default_entry "1.3.6.1.2.1.2.2.1.3.1" integer (int 6)
    ∷ default_entry "1.3.6.1.2.1.2.2.1.4.1" integer (int 1500)
    ∷ default_entry "1.3.6.1.2.1.2.2.1.5.1" integer (int 1000000000)
    ∷ default_entry "1.3.6.1.2.1.2.2.1.10.1" counter32 (uint32 1000000)
    ∷ default_entry "1.3.6.1.2.1.4.1.0" integer (int 1)
    ∷ default_entry "1.3.6.1.2.1.4.20.1.1.192.168.1.1" octet_string (string (codes "192.168.1.1"))
    ∷ default_entry "1.3.6.1.2.1.4.20.1.2.192.168.1.1" integer (int 1)
    ∷ default_entry "1.3.6.1.2.1.4.20.1.3.192.168.1.1" octet_string (string (codes "255.255.255.0"))
    ∷ default_entry "1.3.6.1.2.1.6.1.0" integer (int 100)
    ∷ default_entry "1.3.6.1.2.1.6.14.0" counter32 (uint32 50000)
    ∷ default_entry "1.3.6.1.2.1.7.1.0" counter32 (uint32 100000)
    ∷ default_entry "1.3.6.1.2.1.7.2.0" counter32 (uint32 50000)
    ∷ default_entry "1.3.6.1.2.1.11.1.0" counter32 (uint32 1000)
    ∷ default_entry "1.3.6.1.2.1.11.3.0" counter32 (uint32 0)
    ∷ default_entry "1.3.6.1.2.1.11.4.0" counter32 (uint32 0)
    ∷ default_entry "1.3.6.1.2.1.11.6.0" counter32 (uint32 100)
    ∷ []

unfoldable pub load_default_oids : OidDatabase → OidDatabase
unfolding insert_entries
load_default_oids odb = insert_entries defaults odb

-- A new database with what the file holds, if a file is named.
unfoldable pub from_file : (Bytes → Option Bytes) → Bytes → OidDatabase
unfolding load_snmprec_file
from_file read_file snmprec_file =
    if is_empty snmprec_file
    then new_oid_database
    else (load_snmprec_file (read_file snmprec_file) new_oid_database).0

-- `LoadOIDDatabase`: a file that fails is only logged, and the defaults come after it.
unfoldable pub load_oid_database : (Bytes → Option Bytes) → Bytes → OidDatabase
unfolding from_file load_default_oids
load_oid_database read_file snmprec_file =
    sort_oids (load_default_oids (from_file read_file snmprec_file))
