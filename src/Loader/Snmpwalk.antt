-- ===== src/Loader/Snmpwalk.antt =====
-- internal/store/parser.go: the output of snmpwalk. An error is `none`; it is logged, and its line
-- passed over.
use go_snmpsim.Prelude.{
  ℕ, ◌%◌, ◌^◌, ◌||◌, Option, none, some, List, [], ◌∷◌, Bytes, codes, has_prefix, trim_space, ltb,
  if◌then◌else◌,
}
use go_snmpsim.Snmp.{
  Asn1Ber, octet_string, integer, timeticks, counter32, counter64, gauge32, object_identifier,
  Value, string, int, uint32, uint64, OidEntry,
}
use go_snmpsim.Strconv.{cut, cut_last, contains_byte, split_n}
use go_snmpsim.Strconv.Scan.{split, scan_int, scan_uint}
use go_snmpsim.Strconv.Substrings.{contains, count, cut_at, fields, trim_prefix}
use go_snmpsim.Database.{OidDatabase, new_oid_database, insert}
use go_snmpsim.Loader.{get_snmp_type, parse_oid_value, is_skipped}
use go_snmpsim.Loader.MibNames.{extract_oid_from_named}

pub data SnmpwalkFormat : Type 0 where
  format_unknown format_named_with_mib format_numeric format_snmprec : SnmpwalkFormat

-- The loop over the lines, up to the first that is not passed over; `none` if that decides nothing.
first_line_format : List Bytes → Option SnmpwalkFormat
unfolding trim_space contains_byte
first_line_format [] = none
first_line_format (line ∷ lines) =
    let trimmed = trim_space line in
    let rest = first_line_format lines in
    if is_skipped trimmed
    then rest
    else if has_prefix trimmed (codes ".")
    then some format_numeric
    else if contains_byte b'|' trimmed
    then some format_snmprec
    else none

unfoldable pub detect_format : Bytes → SnmpwalkFormat
unfolding contains count split first_line_format
detect_format text =
    if contains text (codes "SNMPv2-MIB::")
      || (contains text (codes "SNMPv2-SMI::")
          || (contains text (codes "SNMPv2-CONF::") || contains text (codes "-MIB::")))
    then format_named_with_mib
    else elim (first_line_format (split 10 text)) [
      | some format ↦ format
      | none ↦
          if ltb (count text (codes "::")) (count text (codes "."))
          then format_numeric
          else format_unknown
    ]

-- What stands between the first and the last quote.
extract_quoted_string : Bytes → Bytes
unfolding cut cut_last
extract_quoted_string s = elim (cut 34 s).1 [
  | none ↦ []
  | some rest ↦ elim (cut_last 34 rest) [ none ↦ [] | some (inside, behind) ↦ inside ]
]

abbrev or_zero : Option ℕ → ℕ
or_zero none = 0
or_zero (some n) = n

-- The second word, if there is one.
second_field : Bytes → Option Bytes
unfolding fields
second_field s = elim (fields s) [ [] ↦ none | w ∷ ws ↦ elim ws [ [] ↦ none | v ∷ vs ↦ some v ] ]

-- The int that the second word starts with, or 0.
extract_integer : Bytes → ℕ
unfolding second_field scan_int
extract_integer s = elim (second_field s) [ none ↦ 0 | some v ↦ or_zero (scan_int v) ]

-- `uint32(val)`, for `extractCounter32` and `extractGauge32`.
extract_counter32 : Bytes → ℕ
unfolding extract_integer
extract_counter32 s = extract_integer s % 2 ^ 32

extract_counter64 : Bytes → ℕ
unfolding second_field scan_uint
extract_counter64 s = elim (second_field s) [ none ↦ 0 | some v ↦ or_zero (scan_uint v) ]

-- The number between the first `(` and the first `)`, which has to stand behind it.
extract_timeticks : Bytes → ℕ
unfolding cut contains_byte scan_int
extract_timeticks s = elim (cut b'(' s).1 [
  | none ↦ 0
  | some rest ↦ elim (cut b')' rest).1 [
    | none ↦ 0
    | some behind ↦
        if contains_byte b')' (cut b'(' s).0
        then 0
        else or_zero (scan_int (cut b')' rest).0) % 2 ^ 32
  ]
]

extract_oid : Bytes → Bytes
unfolding second_field trim_prefix
extract_oid s = elim (second_field s) [ none ↦ [] | some v ↦ trim_prefix v (codes ".") ]

-- What stands behind the first colon, or the text, if there is none.
extract_hex_string : Bytes → Bytes
unfolding cut trim_space
extract_hex_string s = elim (cut b':' s).1 [ none ↦ trim_space s | some rest ↦ trim_space rest ]

-- `parseTypedValue`, which has no errors.
unfoldable pub parse_typed_value : Bytes → Asn1Ber × Value
unfolding trim_space extract_quoted_string extract_integer extract_timeticks extract_counter32
    extract_counter64 extract_oid extract_hex_string
parse_typed_value text =
    let rhs = trim_space text in
    if has_prefix rhs (codes "STRING")
    then (octet_string, string (extract_quoted_string rhs))
    else if has_prefix rhs (codes "INTEGER")
    then (integer, int (extract_integer rhs))
    else if has_prefix rhs (codes "Timeticks:")
    then (timeticks, uint32 (extract_timeticks rhs))
    else if has_prefix rhs (codes "Counter32:")
    then (counter32, uint32 (extract_counter32 rhs))
    else if has_prefix rhs (codes "Counter64:")
    then (counter64, uint64 (extract_counter64 rhs))
    else if has_prefix rhs (codes "Gauge32:")
    then (gauge32, uint32 (extract_counter32 rhs))
    else if has_prefix rhs (codes "OID:")
    then (object_identifier, string (extract_oid rhs))
    else if has_prefix rhs (codes "Hex-STRING:")
    then (octet_string, string (extract_hex_string rhs))
    else (octet_string, string rhs)

abbrev entry_of : Bytes → Asn1Ber × Value → OidEntry
entry_of oid (type, value) = record { oid = oid; type = type; value = value }

abbrev named_entry : Option Bytes → Bytes → Option OidEntry
named_entry none rhs = none
named_entry (some oid) rhs = some (entry_of oid (parse_typed_value rhs))

unfoldable pub parse_named_line : Bytes → Option OidEntry
unfolding cut_at trim_space extract_oid_from_named parse_typed_value
parse_named_line line = elim (cut_at (codes " = ") line) [
  | none ↦ none
  | some (lhs, rhs) ↦ named_entry (extract_oid_from_named (trim_space lhs)) (trim_space rhs)
]

unfoldable pub parse_numeric_line : Bytes → Option OidEntry
unfolding cut_at trim_space trim_prefix parse_typed_value
parse_numeric_line line = elim (cut_at (codes " = ") line) [
  | none ↦ none
  | some (lhs, rhs) ↦
      some
        (entry_of (trim_prefix (trim_space lhs) (codes ".")) (parse_typed_value (trim_space rhs)))
]

abbrev checked_entry : Bytes → Bytes → Option Value → Option OidEntry
checked_entry oid type_str none = none
checked_entry oid type_str (some value) =
    some (record { oid = oid; type = get_snmp_type type_str; value = value })

snmprec_entry : List Bytes → Option OidEntry
unfolding trim_space parse_oid_value get_snmp_type
snmprec_entry (p0 ∷ p1 ∷ p2 ∷ []) =
    checked_entry (trim_space p0) (trim_space p1) (parse_oid_value (trim_space p1) (trim_space p2))
snmprec_entry parts = none

-- The loop over the lines that the three formats share.
parse_lines : (Bytes → Option OidEntry) → List Bytes → List OidEntry
unfolding trim_space
parse_lines parse [] = []
parse_lines parse (l ∷ lines) =
    let line = trim_space l in
    let rest = parse_lines parse lines in
    if is_skipped line then rest else elim (parse line) [ none ↦ rest | some entry ↦ entry ∷ rest ]

unfoldable pub parse_named_format : Bytes → List OidEntry
unfolding parse_lines parse_named_line split
parse_named_format text = parse_lines parse_named_line (split 10 text)

unfoldable pub parse_numeric_format : Bytes → List OidEntry
unfolding parse_lines parse_numeric_line split
parse_numeric_format text = parse_lines parse_numeric_line (split 10 text)

unfoldable pub parse_snmprec : Bytes → List OidEntry
unfolding parse_lines snmprec_entry split_n split
parse_snmprec text = parse_lines (λ line. snmprec_entry (split_n 3 b'|' line)) (split 10 text)

abbrev entries_in : SnmpwalkFormat → Bytes → Option (List OidEntry)
entries_in format_named_with_mib text = some (parse_named_format text)
entries_in format_numeric text = some (parse_numeric_format text)
entries_in format_snmprec text = some (parse_snmprec text)
entries_in format_unknown text = none

-- `db.Insert` for each entry.
unfoldable pub insert_entries : List OidEntry → OidDatabase → OidDatabase
insert_entries [] odb = odb
insert_entries (entry ∷ entries) odb =
    insert_entries entries
      (insert entry.oid (record { type = entry.type; value = entry.value }) odb)

abbrev database_of : Option (List OidEntry) → Option OidDatabase
database_of none = none
database_of (some entries) = some (insert_entries entries new_oid_database)

-- `ParseSnmpwalkOutput`; the one error is an unknown format.
unfoldable pub parse_snmpwalk_output : Bytes → Option OidDatabase
unfolding detect_format parse_named_format parse_numeric_format parse_snmprec insert_entries
parse_snmpwalk_output text = database_of (entries_in (detect_format text) text)
