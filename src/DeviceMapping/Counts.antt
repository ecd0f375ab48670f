-- ===== src/DeviceMapping/Counts.antt =====
-- internal/store/device_mapping.go: the counters of a mapping.
use go_snmpsim.Prelude.{◌+◌, ◌≡◌, refl, Option, none, some, nat_eq, text_eq, arith}
use go_snmpsim.DeviceMapping.{DeviceOidEntry, DeviceOidMapping, new_device_oid_mapping, add_entry}

-- Every entry is counted once, under the kind of its place.
pub record IsCounted (dm : DeviceOidMapping) : Type 0 where
  pub total : dm.total_entries ≡ dm.port_mappings + dm.device_mappings + dm.default_mappings

pub new-IsCounted : IsCounted new_device_oid_mapping
unfolding new_device_oid_mapping
new-IsCounted = record { total = refl }

-- `AddEntry` adds one to the total of a mapping and to one of the three counts, unless its entry is
-- nil.
pub add_entry-IsCounted :
    (e : Option DeviceOidEntry) (dm : DeviceOidMapping) → IsCounted dm → IsCounted (add_entry e dm)
unfolding add_entry
add_entry-IsCounted none dm h = h
add_entry-IsCounted (some e) dm h = ground arith
