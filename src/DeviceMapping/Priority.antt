-- ===== src/DeviceMapping/Priority.antt =====
-- internal/store/device_mapping.go: which entry `GetOID` finds.
use go_snmpsim.Prelude.{
  ℕ, ◌≡◌, ap, not, Bool, List, [], ◌∷◌, Option, none, some, Bytes, is_empty, Eq, lookup-nil, Map,
  nat_eq, text_eq, lookup, put, lookup-put, arith, if◌then◌else◌, ◌==◌, bytes_eq, ◌&&◌,
}
use go_snmpsim.Snmp.{OidValue}
use go_snmpsim.DeviceMapping.{
  DeviceOidEntry, DeviceOidMapping, new_device_oid_mapping, add_entry, get_oid, int_positive,
  or_nil, entry_of, value_of,
}

-- A write to a map of maps.
entry_of-put {ℓ κ} :
    {K : Type ℓ} {A : Type κ} ⦃eq : Eq K⦄ (k j : K) (o oid : Bytes) (v : A)
    (m : Map K (Map Bytes A))
    → entry_of (lookup j (put k (put o v (or_nil (lookup k m))) m)) oid
      ≡ (if eq.beq k j && bytes_eq o oid then some v else entry_of (lookup j m) oid)
entry_of-put {A} ⦃eq⦄ k j o oid v m = rw lookup-put (
    ground (
      arith,
      eq.beq_iff k j,
      lookup-put o oid v (or_nil (lookup k m)),
      lookup-nil {V = A} oid,
      ap (λ i. entry_of (lookup i m) oid) {x = k} {y = j},
    ))

-- The three views of a mapping.
at_port : DeviceOidMapping → ℕ → Bytes → Option DeviceOidEntry
at_port dm port oid = entry_of (lookup port dm.oids_by_port) oid

at_device : DeviceOidMapping → Bytes → Bytes → Option DeviceOidEntry
at_device dm device_id oid = entry_of (lookup device_id dm.oids_by_device) oid

by_default : DeviceOidMapping → Bytes → Option DeviceOidEntry
by_default dm oid = lookup oid dm.default_oids

-- The requests that an entry is for.
pub for_port : ℕ → Bytes → DeviceOidEntry → Bool
for_port port oid e = int_positive e.port && (e.port == port && bytes_eq e.oid oid)

pub for_device : Bytes → Bytes → DeviceOidEntry → Bool
for_device device_id oid e =
    not (int_positive e.port)
    && (not (is_empty e.device_id) && (bytes_eq e.device_id device_id && bytes_eq e.oid oid))

pub for_all : Bytes → DeviceOidEntry → Bool
for_all oid e = not (int_positive e.port) && (is_empty e.device_id && bytes_eq e.oid oid)

module _ (e : DeviceOidEntry) (dm : DeviceOidMapping) where
  at_port-add_entry :
      (port : ℕ) (oid : Bytes)
      → at_port (add_entry (some e) dm) port oid
        ≡ (if for_port port oid e then some e else at_port dm port oid)
  unfolding at_port add_entry for_port
  at_port-add_entry port oid = ground (arith, entry_of-put e.port port e.oid oid e dm.oids_by_port)

  at_device-add_entry :
      (device_id oid : Bytes)
      → at_device (add_entry (some e) dm) device_id oid
        ≡ (if for_device device_id oid e then some e else at_device dm device_id oid)
  unfolding at_device add_entry for_device
  at_device-add_entry device_id oid =
      ground (arith, entry_of-put e.device_id device_id e.oid oid e dm.oids_by_device)

  by_default-add_entry :
      (oid : Bytes)
      → by_default (add_entry (some e) dm) oid
        ≡ (if for_all oid e then some e else by_default dm oid)
  unfolding by_default add_entry for_all
  by_default-add_entry oid = ground (arith, lookup-put e.oid oid e dm.default_oids)

-- The mapping after the entries were added, the last of the list first.
pub add_all : List DeviceOidEntry → DeviceOidMapping
add_all [] = new_device_oid_mapping
add_all (e ∷ es) = add_entry (some e) (add_all es)

pub find : (DeviceOidEntry → Bool) → List DeviceOidEntry → Option DeviceOidEntry
find p [] = none
find p (e ∷ es) = if p e then some e else find p es

abbrev pub or_else {ℓ} : {A : Type ℓ} → Option A → Option A → Option A
or_else none other = other
or_else (some a) other = some a

abbrev map_value : Option DeviceOidEntry → Option OidValue
map_value none = none
map_value (some e) = some (value_of e)

-- The contract: the latest entry for the port, else the latest for the device, else the latest that
-- is for all.
pub resolve : List DeviceOidEntry → Bytes → ℕ → Bytes → Option OidValue
unfolding find for_port for_device for_all
resolve es oid port device_id = map_value (
    or_else (find (for_port port oid) es) (
      or_else (if is_empty device_id then none else find (for_device device_id oid) es)
        (find (for_all oid) es)))

at_port-new : (port : ℕ) (oid : Bytes) → at_port new_device_oid_mapping port oid ≡ none
unfolding at_port new_device_oid_mapping
at_port-new port oid = rw lookup-nil

at_port-add_all :
    (es : List DeviceOidEntry) (port : ℕ) (oid : Bytes)
    → at_port (add_all es) port oid ≡ find (for_port port oid) es
unfolding add_all find
at_port-add_all [] port oid = at_port-new port oid
at_port-add_all (e ∷ es) port oid = rw (at_port-add_entry, at_port-add_all es port oid)

at_device-new : (device_id oid : Bytes) → at_device new_device_oid_mapping device_id oid ≡ none
unfolding at_device new_device_oid_mapping
at_device-new device_id oid = rw lookup-nil

at_device-add_all :
    (es : List DeviceOidEntry) (device_id oid : Bytes)
    → at_device (add_all es) device_id oid ≡ find (for_device device_id oid) es
unfolding add_all find
at_device-add_all [] device_id oid = at_device-new device_id oid
at_device-add_all (e ∷ es) device_id oid =
    rw (at_device-add_entry, at_device-add_all es device_id oid)

by_default-new : (oid : Bytes) → by_default new_device_oid_mapping oid ≡ none
unfolding by_default new_device_oid_mapping
by_default-new oid = rw lookup-nil

by_default-add_all :
    (es : List DeviceOidEntry) (oid : Bytes) → by_default (add_all es) oid ≡ find (for_all oid) es
unfolding add_all find
by_default-add_all [] oid = by_default-new oid
by_default-add_all (e ∷ es) oid = rw (by_default-add_entry, by_default-add_all es oid)

get_oid-views :
    (dm : DeviceOidMapping) (oid : Bytes) (port : ℕ) (device_id : Bytes)
    → get_oid dm oid port device_id
      ≡ map_value (
          or_else (at_port dm port oid) (
            or_else
              (if is_empty device_id then none else at_device dm device_id oid)
              (by_default dm oid)))
unfolding get_oid at_port at_device by_default
get_oid-views dm oid port device_id = ground arith

-- After any entries were added, `GetOID` returns the value of the latest entry for the port and the
-- OID, without one that of the latest entry for the device, and without one that of the latest entry
-- for all devices; an empty device name stands for no device.
pub get_oid-resolve :
    (es : List DeviceOidEntry) (oid : Bytes) (port : ℕ) (device_id : Bytes)
    → get_oid (add_all es) oid port device_id ≡ resolve es oid port device_id
unfolding resolve
get_oid-resolve es oid port device_id =
    rw (get_oid-views, at_port-add_all, at_device-add_all, by_default-add_all)
