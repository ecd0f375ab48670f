-- ===== src/DeviceMapping.antt =====
-- internal/store/device_mapping.go: the values that are bound to a port or a device.
pub mod Priority
pub mod Counts
pub mod Parse
pub mod Tests
use go_snmpsim.Prelude.{
  ℕ, zero, suc, ◌+◌, ◌^◌, Bool, true, false, ◌&&◌, Option, none, some, List, [], ◌∷◌, ◌++◌, Bytes,
  is_empty, Map, nat_eq, text_eq, lookup, put, ltb, if◌then◌else◌,
}
use go_snmpsim.Snmp.{Asn1Ber, Value, OidValue}

pub record DeviceOidEntry : Type 0 where
  pub oid : Bytes
  pub port : ℕ
  pub type : Asn1Ber
  pub value : Value
  pub device_id : Bytes
  pub priority : ℕ

pub record DeviceOidMapping : Type 0 where
  pub oids_by_port : Map ℕ (Map Bytes DeviceOidEntry)
  pub oids_by_device : Map Bytes (Map Bytes DeviceOidEntry)
  pub default_oids : Map Bytes DeviceOidEntry
  pub all_ports : List ℕ
  pub all_device_ids : List Bytes
  pub total_entries : ℕ
  pub port_mappings : ℕ
  pub device_mappings : ℕ
  pub default_mappings : ℕ

unfoldable pub new_device_oid_mapping : DeviceOidMapping
new_device_oid_mapping = record {
  oids_by_port = [];
  oids_by_device = [];
  default_oids = [];
  all_ports = [];
  all_device_ids = [];
  total_entries = 0;
  port_mappings = 0;
  device_mappings = 0;
  default_mappings = 0;
}

-- `p > 0` of an int, as its pattern.
abbrev pub int_positive : ℕ → Bool
int_positive p = ltb 0 p && ltb p (2 ^ 63)

abbrev pub or_nil {ℓ} : {V : Type ℓ} → Option (Map Bytes V) → Map Bytes V
or_nil none = []
or_nil (some m) = m

-- The list of keys grows with the first entry of a port or a device.
abbrev grown {ℓ κ} : {A : Type ℓ} {V : Type κ} → List A → A → Option V → List A
grown keys key none = keys ++ key ∷ []
grown keys key (some v) = keys

add_port_entry : DeviceOidEntry → DeviceOidMapping → DeviceOidMapping
add_port_entry entry dm =
    let old = lookup entry.port dm.oids_by_port in
    record dm {
      oids_by_port = put entry.port (put entry.oid entry (or_nil old)) dm.oids_by_port;
      all_ports = grown dm.all_ports entry.port old;
      port_mappings = dm.port_mappings + 1;
    }

add_device_entry : DeviceOidEntry → DeviceOidMapping → DeviceOidMapping
add_device_entry entry dm =
    let old = lookup entry.device_id dm.oids_by_device in
    record dm {
      oids_by_device = put entry.device_id (put entry.oid entry (or_nil old)) dm.oids_by_device;
      all_device_ids = grown dm.all_device_ids entry.device_id old;
      device_mappings = dm.device_mappings + 1;
    }

add_default_entry : DeviceOidEntry → DeviceOidMapping → DeviceOidMapping
add_default_entry entry dm = record dm {
  default_oids = put entry.oid entry dm.default_oids;
  default_mappings = dm.default_mappings + 1;
}

-- A nil entry is skipped.
unfoldable pub add_entry : Option DeviceOidEntry → DeviceOidMapping → DeviceOidMapping
unfolding add_port_entry add_device_entry add_default_entry
add_entry none dm = dm
add_entry (some entry) dm =
    let counted = record dm { total_entries = dm.total_entries + 1 } in
    if int_positive entry.port
    then add_port_entry entry counted
    else if is_empty entry.device_id
    then add_default_entry entry counted
    else add_device_entry entry counted

-- An entry of a map of maps.
abbrev pub entry_of {ℓ} : {V : Type ℓ} → Option (Map Bytes V) → Bytes → Option V
entry_of none oid = none
entry_of (some m) oid = lookup oid m

abbrev pub value_of : DeviceOidEntry → OidValue
value_of entry = record { type = entry.type; value = entry.value }

unfoldable pub get_oid : DeviceOidMapping → Bytes → ℕ → Bytes → Option OidValue
get_oid dm oid port device_id = elim (entry_of (lookup port dm.oids_by_port) oid) [
  | some entry ↦ some (value_of entry)
  | none ↦
      elim (if is_empty device_id
        then none
        else entry_of (lookup device_id dm.oids_by_device) oid) [
          | some entry ↦ some (value_of entry)
          | none ↦ elim (lookup oid dm.default_oids) [
            | some entry ↦ some (value_of entry)
            | none ↦ none
          ]
        ]
]

-- The total, and the counts of each kind.
unfoldable pub get_stats : DeviceOidMapping → ℕ × ℕ × ℕ × ℕ
get_stats dm = (dm.total_entries, dm.port_mappings, dm.device_mappings, dm.default_mappings)
