-- ===== src/DeviceMapping/Tests.antt =====
-- A mapping with concrete entries.
use go_snmpsim.Prelude.{◌≡◌, refl, [], ◌∷◌, List, Bytes, codes, nat_eq, text_eq}
use go_snmpsim.Snmp.{integer, int}
use go_snmpsim.DeviceMapping.{DeviceOidEntry, get_oid}
use go_snmpsim.DeviceMapping.Priority.{add_all, resolve, get_oid-resolve}
use go_snmpsim.DeviceMapping.Parse.Route.{IsField}

abbrev contact : Bytes
contact = codes "1.3.6.1.2.1.1.4.0"

abbrev for_everyone : DeviceOidEntry
for_everyone = record {
  oid = contact;
  port = 0;
  type = integer;
  value = int 1;
  device_id = [];
  priority = 0;
}

abbrev at_1161 : DeviceOidEntry
at_1161 = record for_everyone { port = 1161; value = int 2; priority = 2 }

abbrev of_router : DeviceOidEntry
of_router = record for_everyone { device_id = codes "router"; value = int 3; priority = 1 }

abbrev entries : List DeviceOidEntry
entries = for_everyone ∷ of_router ∷ at_1161 ∷ []

get_oid-resolve_example :
    get_oid (add_all entries) contact 1161 (codes "router")
    ≡ resolve entries contact 1161 (codes "router")
get_oid-resolve_example = get_oid-resolve entries contact 1161 (codes "router")

oid-IsField : IsField (codes "1.3")
oid-IsField = record { no_space = (refl, (refl, (refl, tt))); no_bar = (refl, (refl, (refl, tt))) }

type-IsField : IsField (codes "int")
type-IsField = record { no_space = (refl, (refl, (refl, tt))); no_bar = (refl, (refl, (refl, tt))) }

value-IsField : IsField (codes "7")
value-IsField = record { no_space = (refl, tt); no_bar = (refl, tt) }
