-- ===== src/Loader.antt =====
-- internal/store/loader.go and internal/store/template.go: the types and values of record files. An
-- error is `none`.
pub mod Templates
pub mod MibNames
pub mod Snmpwalk
pub mod Tests
pub mod Files
use go_snmpsim.Prelude.{
  ℕ, ◌%◌, ◌^◌, Bool, Option, none, some, List, [], ◌∷◌, Bytes, codes, is_empty, is_label,
  has_prefix, trim_space, to_lower, ◌||◌, if◌then◌else◌,
}
use go_snmpsim.Strconv.{parse_int}
use go_snmpsim.Strconv.Clamped.{parse_int_value}
use go_snmpsim.Snmp.{
  Asn1Ber, octet_string, integer, bit_string, counter32, counter64, gauge32, timeticks, opaque,
  object_identifier, ip_address, nsap_address, Value, string, int, uint32, uint64,
}

-- The type of a type string.
unfoldable pub get_snmp_type : Bytes → Asn1Ber
unfolding to_lower trim_space
get_snmp_type type_str =
    let s = to_lower (trim_space type_str) in
    if is_label s ("integer" ∷ "int" ∷ "i" ∷ [])
    then integer
    else if is_label s ("counter32" ∷ "counter" ∷ "c32" ∷ [])
    then counter32
    else if is_label s ("counter64" ∷ "c64" ∷ [])
    then counter64
    else if is_label s ("gauge32" ∷ "gauge" ∷ "g" ∷ [])
    then gauge32
    else if is_label s ("timeticks" ∷ "tt" ∷ "ticks" ∷ [])
    then timeticks
    else if is_label s ("octetstring" ∷ "string" ∷ "s" ∷ [])
    then octet_string
    else if is_label s ("objectidentifier" ∷ "oid" ∷ "o" ∷ [])
    then object_identifier
    else if is_label s ("ipaddress" ∷ "ip" ∷ [])
    then ip_address
    else if is_label s ("opaque" ∷ [])
    then opaque
    else if is_label s ("nsapaddress" ∷ [])
    then nsap_address
    else if is_label s ("bits" ∷ [])
    then bit_string
    else octet_string

abbrev with_value : (ℕ → Value) → Option ℕ → Option Value
with_value f none = none
with_value f (some n) = some (f n)

-- `uint32(val)`
abbrev to_uint32 : ℕ → Value
to_uint32 n = uint32 (n % 2 ^ 32)

-- The value that is kept where there is no error.
unfoldable pub parse_oid_value : Bytes → Bytes → Option Value
unfolding to_lower trim_space parse_int
parse_oid_value type_str value_str =
    let s = to_lower (trim_space type_str) in
    if is_label s ("integer" ∷ "int" ∷ "i" ∷ [])
    then with_value int (parse_int 32 value_str)
    else if is_label s ("counter32" ∷ "gauge32" ∷ "counter" ∷ "gauge" ∷ "c32" ∷ [])
    then with_value to_uint32 (parse_int 32 value_str)
    else if is_label s ("counter64" ∷ "c64" ∷ [])
    then with_value uint64 (parse_int 64 value_str)
    else if is_label s ("timeticks" ∷ "tt" ∷ "ticks" ∷ [])
    then with_value to_uint32 (parse_int 32 value_str)
    else if is_label s ("octetstring" ∷ "string" ∷ "s" ∷ [])
    then some (string value_str)
    else if is_label s ("objectidentifier" ∷ "oid" ∷ "o" ∷ [])
    then some (string value_str)
    else if is_label s ("ipaddress" ∷ "ip" ∷ [])
    then some (string value_str)
    else if is_label s ("opaque" ∷ "nsapaddress" ∷ "bits" ∷ [])
    then some (string value_str)
    else none

-- `parseTemplateValue`, which drops the errors of the conversions.
unfoldable pub parse_template_value : Bytes → Bytes → Value
unfolding to_lower trim_space parse_int_value
parse_template_value type_str value_str =
    let s = to_lower (trim_space type_str) in
    if is_label s ("integer" ∷ "int" ∷ "i" ∷ [])
    then int (parse_int_value 32 value_str)
    else if is_label s ("counter32" ∷ "gauge32" ∷ "counter" ∷ "gauge" ∷ "c32" ∷ [])
    then to_uint32 (parse_int_value 32 value_str)
    else if is_label s ("counter64" ∷ "c64" ∷ [])
    then uint64 (parse_int_value 64 value_str)
    else if is_label s ("timeticks" ∷ "tt" ∷ "ticks" ∷ [])
    then to_uint32 (parse_int_value 32 value_str)
    else string value_str

-- `line == "" || strings.HasPrefix(line, "#")`
abbrev pub is_skipped : Bytes → Bool
is_skipped line = is_empty line || has_prefix line (codes "#")
