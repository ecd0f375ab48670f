-- ===== src/Loader/Tests.antt =====
-- Concrete record files and walks.
use go_snmpsim.Prelude.{
  suc, ◌≡◌, ◌↔◌, refl, Option, some, none, [], ◌∷◌, Mem, Bytes, codes, length, arith, text_eq,
}
use go_snmpsim.Oid.Render.{IsCanonical, render, decimal, render_tail, render-IsCanonical}
use go_snmpsim.Positions.Ascending.{IsAscending}
use go_snmpsim.Snmp.{integer, octet_string, gauge32, int, string, uint32}
use go_snmpsim.Strconv.{parse_int, split_n, cut}
use go_snmpsim.Strconv.Scan.{split}
use go_snmpsim.Strconv.Clamped.{parse_int_value}
use go_snmpsim.Database.{get, new_oid_database, sort_oids}
use go_snmpsim.Database.Walk.{next_oids}
use go_snmpsim.Database.Loaded.{oids_of}
use go_snmpsim.Loader.{get_snmp_type, parse_oid_value, parse_template_value}
use go_snmpsim.Loader.Templates.{
  OidTemplate, template_range, parse_template_pattern, collect_templates, detect_indices_from_oids,
  expand_templates,
}
use go_snmpsim.Loader.MibNames.{lookup_mib_oid}
use go_snmpsim.Loader.Snmpwalk.{parse_typed_value, parse_numeric_line}
use go_snmpsim.Loader.Files.{load_snmprec, defaults, from_file, load_oid_database}
use go_snmpsim.Loader.Files.Loaded.{snmprec_entries, pairs, next_oids-load_snmprec}
use go_snmpsim.Loader.Files.Defaults.{last_of, get-load_oid_database}

abbrev speed : OidTemplate
speed = record {
  oid = codes "1.3.5";
  type = integer;
  value = int 100;
  pattern = some (template_range 2 4 1);
}

range_pattern : parse_template_pattern (codes "#2-4") ≡ some (template_range 2 4 1)
unfolding parse_template_pattern split_n cut parse_int
range_pattern = refl

abbrev content : Bytes
content = codes "1.9|integer|5"

content_entries :
    snmprec_entries content ≡ record { oid = codes "1.9"; type = integer; value = int 5 } ∷ []
unfolding snmprec_entries collect_templates detect_indices_from_oids expand_templates split
content_entries = refl

nine-IsCanonical : IsCanonical (codes "1.9")
nine-IsCanonical =
    unfold render decimal render_tail in
    render-IsCanonical (1 ∷ 9 ∷ []) (omega arith, (omega arith, tt))

next_oids-load_snmprec_example :
    let oids = oids_of (pairs (snmprec_entries content)) in
    let loaded = load_snmprec content new_oid_database in
    let odb = sort_oids loaded.0 in
    (next_oids (suc (length odb.sorted_oids)) odb [] ≡ odb.sorted_oids)
    × IsAscending odb.sorted_oids
    × ((a : Bytes) → Mem a odb.sorted_oids ↔ Mem a oids)
    × (loaded.1 ≡ length (snmprec_entries content))
next_oids-load_snmprec_example =
    next_oids-load_snmprec content (rw content_entries (nine-IsCanonical, tt))
      (rw content_entries (refl, tt))

abbrev one_file : Bytes → Option Bytes
one_file path = some (codes "1.3.6.1.2.1.1.1.0|octetstring|My router")

get-load_oid_database_example :
    get (load_oid_database one_file (codes "a.snmprec")) (codes "1.3.6.1.2.1.1.1.0")
    ≡ last_of defaults
        (codes "1.3.6.1.2.1.1.1.0")
        (get (from_file one_file (codes "a.snmprec")) (codes "1.3.6.1.2.1.1.1.0"))
get-load_oid_database_example =
    get-load_oid_database one_file (codes "a.snmprec") (codes "1.3.6.1.2.1.1.1.0")

-- The description in the file is not the one that is served.
default_wins :
    get (load_oid_database one_file (codes "a.snmprec")) (codes "1.3.6.1.2.1.1.1.0")
    ≡ some (record { type = octet_string; value = string (codes "Simulated SNMP Agent") })
default_wins = get-load_oid_database one_file (codes "a.snmprec") (codes "1.3.6.1.2.1.1.1.0")

-- A Gauge32 that does not fit an int32.
clamped : parse_template_value (codes "gauge32") (codes "4000000000") ≡ uint32 2147483647
unfolding parse_template_value parse_int_value
clamped = refl

refused : parse_oid_value (codes "gauge32") (codes "4000000000") ≡ none
unfolding parse_oid_value parse_int
refused = refl

-- The letter `g` has a type and no value.
g_type : get_snmp_type (codes "g") ≡ gauge32
unfolding get_snmp_type
g_type = refl

g_value : parse_oid_value (codes "g") (codes "5") ≡ none
unfolding parse_oid_value
g_value = refl

-- A string that is not quoted is lost.
unquoted : parse_typed_value (codes "STRING: eth0") ≡ (octet_string, string [])
unfolding parse_typed_value
unquoted = refl

-- The errors of an interface are stored under the OID of its outgoing ones.
in_errors : lookup_mib_oid (codes "ifInErrors.3") ≡ codes "1.3.6.1.2.1.2.2.1.20.3"
unfolding lookup_mib_oid cut
in_errors = refl

numeric_line :
    parse_numeric_line (codes ".1.3.9 = INTEGER: 12")
    ≡ some (record { oid = codes "1.3.9"; type = integer; value = int 12 })
unfolding parse_numeric_line parse_typed_value parse_int
numeric_line = refl
