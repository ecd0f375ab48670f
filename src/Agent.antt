-- ===== src/Agent.antt =====
-- internal/agent/agent.go: what a simulated agent answers. Its lock, its hooks and its log are left
-- out, and so is the coding of packets, which gosnmp does. The outside world, that is the clock and
-- the source of random numbers, is a state that a reading changes.
pub mod Handlers
pub mod Usm
pub mod Decode
pub mod Response
pub mod Hmac
pub mod Packets
pub mod Guarded
pub mod BulkTests
pub mod PacketTests
pub mod UsmTests
pub mod Dataset
pub mod Lookup
pub mod Tests
use go_snmpsim.Prelude.{
  ℕ, ◌-◌, ◌^◌, Bool, true, false, Option, none, some, List, [], ◌∷◌, ◌++◌, Bytes, codes, is_empty,
  bytes_eq, Map, text_eq, lookup, put, ltb, ◌==◌, if◌then◌else◌,
}
use go_snmpsim.Strconv.{print_int}
use go_snmpsim.Snmp.{
  Asn1Ber, end_of_contents, no_such_object, end_of_mib_view, octet_string, timeticks, integer,
  Asn1Ber-discrete, Value, nil, string, int, uint32, OidValue,
}
use go_snmpsim.Database.{OidDatabase, get, get_next}
use go_snmpsim.DeviceMapping.{DeviceOidMapping, get_oid}

-- The fields of `VirtualAgent` that a lookup reads. An `int` is its bit pattern.
pub record VirtualAgent : Type 0 where
  pub device_id : ℕ
  pub port : ℕ
  pub sys_name : Bytes
  pub device_mapping : Option DeviceOidMapping
  pub device_overlay : Map Bytes Value

-- What the agent uses of an index manager: the OID that follows, and its value or nil.
abbrev pub IndexManager : Type 0
IndexManager = Bytes → OidDatabase → Bytes × Option OidValue

-- Readings of the outside world.
pub record Outside (W : Type 0) : Type 0 where
  pub uptime_ticks : W → ℕ × W
  pub cpu_load : W → ℕ × W

unfoldable pub normalize_oid : Bytes → Bytes
normalize_oid [] = []
normalize_oid (c ∷ oid) = if c == b'.' then oid else c ∷ oid

abbrev typed : Asn1Ber → Value → OidValue
typed t v = record { type = t; value = v }

abbrev pub not_found : OidValue
not_found = record { type = no_such_object; value = nil }

abbrev pub end_of_mib : OidValue
end_of_mib = record { type = end_of_mib_view; value = nil }

abbrev is_type : Asn1Ber → Asn1Ber → Bool
is_type s t = elim (Asn1Ber-discrete s t) [ yes e ↦ true | no n ↦ false ]

module _ {W : Type 0} (outside : Outside W) (va : VirtualAgent) where
  unfoldable pub get_system_oid : Bytes → W → Option OidValue × W
  unfolding print_int
  get_system_oid oid w =
      let uptime = outside.uptime_ticks w in
      let load = outside.cpu_load w in
      if bytes_eq oid (codes "1.3.6.1.2.1.1.3.0")
      then (some (typed timeticks (uint32 uptime.0)), uptime.1)
      else if bytes_eq oid (codes "1.3.6.1.2.1.1.5.0")
      then (some (typed octet_string (string va.sys_name)), w)
      else if bytes_eq oid (codes "1.3.6.1.2.1.1.6.0")
      then (
        some (typed octet_string (string (codes "Simulated-Device-" ++ print_int va.device_id))),
        w,
      )
      else if bytes_eq oid (codes "1.3.6.1.2.1.25.3.2.1.5.1")
      then (some (typed integer (int load.0)), load.1)
      else (none, w)

  -- `va.deviceMapping.GetOID(oid, va.port, va.sysName)`, where there is a mapping.
  abbrev pub mapped : Option DeviceOidMapping → Bytes → Option OidValue
  mapped none oid = none
  mapped (some dm) oid = get_oid dm oid va.port va.sys_name

  -- The lookup in a database, of an OID without a dot in front.
  unfoldable pub get_normal_value : OidDatabase → Bytes → W → OidValue × W
  unfolding get_system_oid
  get_normal_value odb oid w = elim (mapped va.device_mapping oid) [
    | some val ↦ (val, w)
    | none ↦ elim (lookup oid va.device_overlay) [
      | some val ↦ (typed octet_string val, w)
      | none ↦ elim (get_system_oid oid w).0 [
        | some val ↦ (val, (get_system_oid oid w).1)
        | none ↦ elim (get odb oid) [
          | some val ↦ (val, (get_system_oid oid w).1)
          | none ↦ (not_found, (get_system_oid oid w).1)
        ]
      ]
    ]
  ]

  unfoldable pub get_oid_value : Option OidDatabase → Bytes → W → OidValue × W
  unfolding get_normal_value normalize_oid
  get_oid_value none oid w = (not_found, w)
  get_oid_value (some odb) oid w = get_normal_value odb (normalize_oid oid) w

  -- A value of type 0 from the index manager is looked up again.
  unfoldable pub resolve_type : OidDatabase → Bytes → Option OidValue → W → Option OidValue × W
  unfolding get_oid_value
  resolve_type odb next_oid none w = (none, w)
  resolve_type odb next_oid (some val) w =
      let resolved = get_oid_value (some odb) next_oid w in
      if is_type val.type end_of_contents
      then (some (if is_type resolved.0.type no_such_object then val else resolved.0), resolved.1)
      else (some val, w)

  -- The next OID in the database itself, without an index manager.
  unfoldable pub get_next_in : OidDatabase → Bytes → W → (Bytes × Option OidValue) × W
  unfolding get_oid_value
  get_next_in odb oid w =
      let next_oid = get_next odb oid in
      let value = get_oid_value (some odb) next_oid w in
      if is_empty next_oid then ((oid, some end_of_mib), w) else ((next_oid, some value.0), value.1)

  unfoldable pub get_next_oid :
      Option IndexManager → Option OidDatabase → Bytes → W → (Bytes × Option OidValue) × W
  unfolding normalize_oid get_next_in resolve_type
  get_next_oid index none oid w = ((normalize_oid oid, some end_of_mib), w)
  get_next_oid none (some odb) oid w = get_next_in odb (normalize_oid oid) w
  get_next_oid (some index) (some odb) oid w =
      let found = index (normalize_oid oid) odb in
      let val = resolve_type odb found.0 found.1 w in ((found.0, val.0), val.1)

-- The overlay is keyed by the text that is given.
unfoldable pub set_oid_value : Bytes → Value → VirtualAgent → VirtualAgent
set_oid_value oid value va = record va { device_overlay = put oid value va.device_overlay }
