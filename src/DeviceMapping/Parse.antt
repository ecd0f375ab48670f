-- ===== src/DeviceMapping/Parse.antt =====
-- internal/store/device_mapping.go: the lines of a mapping file. An error is `none`.
pub mod Route
use go_snmpsim.Prelude.{
  ℕ, ◌≡◌, refl, Bool, true, false, ◌&&◌, ◌||◌, Option, none, some, List, [], ◌∷◌, ◌++◌, Bytes,
  codes, is_empty, is_label, bytes_eq, has_prefix, trim_space, to_lower, if◌then◌else◌,
}
use go_snmpsim.Snmp.{
  Asn1Ber, octet_string, integer, counter32, counter64, gauge32, timeticks, opaque,
  object_identifier, ip_address, Value, string, int, uint32, uint64, OidEntry,
}
use go_snmpsim.Strconv.{parse_uint, parse_int, atoi, split_n, cut_last, contains_byte}
use go_snmpsim.DeviceMapping.{DeviceOidEntry}

infixl 5 ◌>>=◌
abbrev pub ◌>>=◌ {ℓ κ} : {A : Type ℓ} {B : Type κ} → Option A → (A → Option B) → Option B
none >>= f = none
some a >>= f = f a

unfoldable pub parse_type : Bytes → Option Asn1Ber
unfolding to_lower
parse_type type_str =
    let s = to_lower type_str in
    if is_label s ("octetstring" ∷ "string" ∷ [])
    then some octet_string
    else if is_label s ("integer" ∷ "int" ∷ [])
    then some integer
    else if is_label s ("counter32" ∷ "counter" ∷ [])
    then some counter32
    else if is_label s ("counter64" ∷ [])
    then some counter64
    else if is_label s ("gauge32" ∷ "gauge" ∷ [])
    then some gauge32
    else if is_label s ("timeticks" ∷ "timetick" ∷ [])
    then some timeticks
    else if is_label s ("integer32" ∷ "int32" ∷ [])
    then some integer
    else if is_label s ("opaque" ∷ [])
    then some opaque
    else if is_label s ("oid" ∷ "objectidentifier" ∷ [])
    then some object_identifier
    else if is_label s ("ipaddress" ∷ "ipaddr" ∷ [])
    then some ip_address
    else none

unfoldable pub parse_mapping_value : Asn1Ber → Bytes → Option Value
unfolding parse_int parse_uint
parse_mapping_value integer value = do v ← parse_int 32 value; some (int v)
parse_mapping_value counter32 value = do v ← parse_uint 32 value; some (uint32 v)
parse_mapping_value counter64 value = do v ← parse_uint 64 value; some (uint64 v)
parse_mapping_value gauge32 value = do v ← parse_uint 32 value; some (uint32 v)
parse_mapping_value timeticks value = do v ← parse_uint 32 value; some (uint32 v)
parse_mapping_value snmp_type value = some (string value)

-- The port, the device and the priority of a route.
abbrev pub Route : Type 0
Route = ℕ × Bytes × ℕ

-- A route is a port, if it is a number, and a device otherwise.
pub parse_route : Bytes → Route
parse_route route = elim (atoi route) [ some port ↦ (port, [], 2) | none ↦ (0, route, 1) ]

-- The value and the route of the third field.
pub split_route : Bytes → Bytes × Route
unfolding parse_route cut_last
split_route value_with_route = elim (cut_last b'@' value_with_route) [
  | some (value, route) ↦ (trim_space value, parse_route (trim_space route))
  | none ↦ (value_with_route, (0, [], 0))
]

-- The entry of a line's first three fields.
pub parse_fields : List Bytes → Option DeviceOidEntry
unfolding parse_type parse_mapping_value split_route
parse_fields (p0 ∷ p1 ∷ p2 ∷ more) = do
  snmp_type ← parse_type (trim_space p1)
  let value_and_route = split_route (trim_space p2)
  let route = value_and_route.1
  value ← parse_mapping_value snmp_type value_and_route.0
  some (record {
    oid = trim_space p0;
    port = route.0;
    type = snmp_type;
    value = value;
    device_id = route.1;
    priority = route.2;
  })
parse_fields parts = none

unfoldable pub parse_device_oid : Bytes → Option DeviceOidEntry
unfolding parse_fields split_n
parse_device_oid line = parse_fields (split_n 4 b'|' line)

third_has_route : List Bytes → Bool
unfolding contains_byte
third_has_route (p0 ∷ p1 ∷ p2 ∷ more) = contains_byte b'@' (trim_space p2)
third_has_route parts = false

-- `IsDeviceOID`
unfoldable pub is_device_oid : Bytes → Bool
unfolding third_has_route split_n
is_device_oid line = contains_byte b'|' line && third_has_route (split_n 4 b'|' line)

entry_of_fields : List Bytes → Option OidEntry
unfolding parse_type parse_mapping_value
entry_of_fields (p0 ∷ p1 ∷ p2 ∷ more) = do
  snmp_type ← parse_type (trim_space p1)
  value ← parse_mapping_value snmp_type (trim_space p2)
  some (record { oid = trim_space p0; type = snmp_type; value = value })
entry_of_fields parts = none

unfoldable pub parse_oid_entry : Bytes → Option OidEntry
unfolding entry_of_fields split_n
parse_oid_entry line = entry_of_fields (split_n 3 b'|' line)

-- The loop of `CollectDeviceMappings`: the first line that is refused ends it.
collect :
    List Bytes → List DeviceOidEntry → List OidEntry → Option (List DeviceOidEntry × List OidEntry)
unfolding is_device_oid parse_device_oid parse_oid_entry
collect [] device_entries regular_entries = some (device_entries, regular_entries)
collect (l ∷ lines) device_entries regular_entries =
    let line = trim_space l in
    let skip = collect lines device_entries regular_entries in
    let routed =
      parse_device_oid line >>= λ e. collect lines (device_entries ++ e ∷ []) regular_entries in
    let plain =
      parse_oid_entry line >>= λ e. collect lines device_entries (regular_entries ++ e ∷ []) in
    if is_empty line || has_prefix line (codes "#")
    then skip
    else if is_device_oid line
    then routed
    else plain

unfoldable pub collect_device_mappings : List Bytes → Option (List DeviceOidEntry × List OidEntry)
unfolding collect
collect_device_mappings lines = collect lines [] []
