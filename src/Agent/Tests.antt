-- ===== src/Agent/Tests.antt =====
-- A concrete agent.
use go_snmpsim.Prelude.{
  ℕ, ◌≡◌, ◌↔◌, refl, true, false, ◌&&◌, none, some, [], ◌∷◌, codes, bytes_eq, lookup, text_eq,
  if◌then◌else◌,
}
use go_snmpsim.Snmp.{int, octet_string}
use go_snmpsim.Database.{OidDatabase, get}
use go_snmpsim.Agent.{
  VirtualAgent, Outside, get_oid_value, set_oid_value, get_system_oid, normalize_oid, mapped,
  not_found,
}
use go_snmpsim.Agent.Lookup.{
  first_of, overlaid, is_none, get_oid_value-first_of, get_oid_value-set_oid_value,
}
use go_snmpsim.Agent.Usm.{
  UsmSecurityParameters, v3_request, IsTimely, validate_usm_window, should_send_v3_discovery_report,
  accepts_iff,
}
use go_snmpsim.Agent.Handlers.{State, response, handle_get_request}
use go_snmpsim.Agent.Handlers.Get.{reads, handle_get_request-reads}

abbrev pub still : Outside (Unit {0})
still = record { uptime_ticks = λ w. (0, w); cpu_load = λ w. (7, w) }

abbrev pub zero_source : Unit {0} → ℕ → ℕ × Unit {0}
zero_source s n = (0, s)

abbrev pub agent : VirtualAgent
agent = record {
  device_id = 3;
  port = 1161;
  sys_name = codes "router";
  device_mapping = none;
  device_overlay = (codes "1.9", int 5) ∷ [];
}

abbrev two_oids : OidDatabase
two_oids = record { shards = []; sorted_oids = codes "1.9" ∷ codes "1.10.2" ∷ [] }

abbrev idle : State (Unit {0}) (Unit {0})
idle = record { binder = none; world = tt }

get_oid_value-first_of_example :
    (get_oid_value still agent (some two_oids) (codes ".1.9") tt).0
    ≡ first_of
        (mapped still agent agent.device_mapping (normalize_oid (codes ".1.9"))
          ∷ overlaid (lookup (normalize_oid (codes ".1.9")) agent.device_overlay)
          ∷ (get_system_oid still agent (normalize_oid (codes ".1.9")) tt).0
          ∷ get two_oids (normalize_oid (codes ".1.9"))
          ∷ [])
        not_found
get_oid_value-first_of_example = get_oid_value-first_of still agent two_oids (codes ".1.9") tt

get_oid_value-set_oid_value_example :
    get_oid_value still
      (set_oid_value (codes "1.3") (int 1) agent)
      (some two_oids)
      (codes ".1.3")
      tt
    ≡ (if is_none (mapped still agent agent.device_mapping (normalize_oid (codes ".1.3")))
          && bytes_eq (codes "1.3") (normalize_oid (codes ".1.3"))
        then (record { type = octet_string; value = int 1 }, tt)
        else get_oid_value still agent (some two_oids) (codes ".1.3") tt)
get_oid_value-set_oid_value_example =
    get_oid_value-set_oid_value still agent two_oids (codes "1.3") (int 1) (codes ".1.3") tt

abbrev current : UsmSecurityParameters
current = record {
  authoritative_engine_id = codes "engine";
  authoritative_engine_boots = 2;
  authoritative_engine_time = 1000;
  user_name = codes "simuser";
}

accepts_iff_example :
    ((validate_usm_window (codes "engine") 2 1100 (v3_request (some current)) ≡ [])
      × (should_send_v3_discovery_report true (v3_request (some current)) ≡ false))
    ↔ ((p : UsmSecurityParameters) × (some current ≡ some p) × IsTimely (codes "engine") 2 1100 p)
accepts_iff_example = accepts_iff (codes "engine") 2 1100 (some current) refl

handle_get_request-reads_example :
    handle_get_request zero_source still agent 0
      (some two_oids)
      (codes "1.9" ∷ codes "1.3" ∷ [])
      idle
    ≡ (
      response (reads still agent (some two_oids) (codes "1.9" ∷ codes "1.3" ∷ []) tt).0 0 0,
      record {
        binder = none;
        world = (reads still agent (some two_oids) (codes "1.9" ∷ codes "1.3" ∷ []) tt).1;
      },
    )
handle_get_request-reads_example =
    handle_get_request-reads zero_source still agent 0 (some two_oids)
      (codes "1.9" ∷ codes "1.3" ∷ []) tt
