-- ===== src/Agent/Usm.antt =====
-- internal/agent/agent.go: the checks of SNMPv3 requests, for the versions and the security parameters
-- that gosnmp has decoded.
use go_snmpsim.Prelude.{
  ℕ, ◌+◌, ◌-◌, ◌≤◌, ◌≡◌, ◌↔◌, refl, Bool, true, false, ◌&&◌, Option, none, some, [], Bytes, codes,
  is_empty, bytes_eq, bytes_eq_iff, arith, ltb, ◌==◌, if◌then◌else◌,
}

-- gosnmp.UsmSecurityParameters, as far as the agent reads it.
pub record UsmSecurityParameters : Type 0 where
  pub authoritative_engine_id : Bytes
  pub authoritative_engine_boots : ℕ
  pub authoritative_engine_time : ℕ
  pub user_name : Bytes

-- The version of a packet, and its parameters, if they are those of the user security model.
pub record SnmpPacket : Type 0 where
  pub is_version3 : Bool
  pub usm : Option UsmSecurityParameters

abbrev pub unknown_engine_id : Bytes
unknown_engine_id = codes ".1.3.6.1.6.3.15.1.1.4.0"

abbrev pub not_in_time_window : Bytes
not_in_time_window = codes ".1.3.6.1.6.3.15.1.1.2.0"

-- The time window of a request for a known engine; `now` is a uint32 of seconds.
unfoldable pub check_time : (engine_boots now : ℕ) → UsmSecurityParameters → Bytes
check_time engine_boots now usm =
    let time = usm.authoritative_engine_time in
    if usm.authoritative_engine_boots == engine_boots
    then (if ltb 150 (if ltb time now then now - time else time - now)
        then not_in_time_window
        else [])
    else not_in_time_window

-- The OID of the report to send, or the empty text.
unfoldable pub validate_usm_window : (engine_id : Bytes) (engine_boots now : ℕ) → SnmpPacket → Bytes
unfolding check_time
validate_usm_window engine_id engine_boots now req =
    if req.is_version3
    then elim req.usm [
      | none ↦ unknown_engine_id
      | some usm ↦
          if is_empty usm.authoritative_engine_id
          then []
          else if bytes_eq usm.authoritative_engine_id engine_id
          then check_time engine_boots now usm
          else unknown_engine_id
    ]
    else []

unfoldable pub should_send_v3_discovery_report : (enabled : Bool) → SnmpPacket → Bool
should_send_v3_discovery_report enabled req =
    if req.is_version3 && enabled
    then elim req.usm [ none ↦ true | some usm ↦ is_empty usm.authoritative_engine_id ]
    else false

-- The parameters of a request that may be answered: its engine, boots and time are the agent's.
pub record IsTimely (engine_id : Bytes) (engine_boots now : ℕ) (usm : UsmSecurityParameters)
    : Type 0 where
  pub engine : usm.authoritative_engine_id ≡ engine_id
  pub boots : usm.authoritative_engine_boots ≡ engine_boots
  pub not_late : now ≤ usm.authoritative_engine_time + 150
  pub not_early : usm.authoritative_engine_time ≤ now + 150

check_time_iff :
    (engine_id : Bytes) (engine_boots now : ℕ) (usm : UsmSecurityParameters)
    → usm.authoritative_engine_id ≡ engine_id
    → (check_time engine_boots now usm ≡ []) ↔ IsTimely engine_id engine_boots now usm
unfolding check_time
check_time_iff engine_id engine_boots now usm e = (
  λ h. record {
    engine = e;
    boots = ground arith;
    not_late = ground arith;
    not_early = ground arith;
  },
  λ h. ground (arith, h.boots, h.not_late, h.not_early),
)

abbrev pub v3_request : Option UsmSecurityParameters → SnmpPacket
v3_request usm = record { is_version3 = true; usm = usm }

-- An agent with SNMPv3 goes on with a version 3 request, without a report and without discovery,
-- exactly if its parameters are those of the user security model, name the agent's engine and its
-- boots, and carry a time that is at most 150 seconds off. The agent's engine has a name.
pub accepts_iff :
    (engine_id : Bytes) (engine_boots now : ℕ) (usm : Option UsmSecurityParameters)
    → is_empty engine_id ≡ false
    → ((validate_usm_window engine_id engine_boots now (v3_request usm) ≡ [])
        × (should_send_v3_discovery_report true (v3_request usm) ≡ false))
      ↔ ((p : UsmSecurityParameters) × (usm ≡ some p) × IsTimely engine_id engine_boots now p)
unfolding validate_usm_window should_send_v3_discovery_report
accepts_iff engine_id engine_boots now none named = (λ h. cc, λ (p, e, t). cc)
accepts_iff engine_id engine_boots now (some usm) named = (
  λ (valid, known).
      let same : usm.authoritative_engine_id ≡ engine_id =
        ground (arith, bytes_eq_iff usm.authoritative_engine_id engine_id) in
      let timely : check_time engine_boots now usm ≡ [] =
        ground (arith, bytes_eq_iff usm.authoritative_engine_id engine_id) in
      (usm, refl, (check_time_iff engine_id engine_boots now usm same).0 timely),
  λ (p, e, t).
      let same : p ≡ usm = cc in
      let timely = rw same at t in
      let checked = (check_time_iff engine_id engine_boots now usm timely.engine).1 timely in
      let first : is_empty usm.authoritative_engine_id ≡ false = rw timely.engine named in
      (
        ground (
          arith,
          first,
          checked,
          timely.engine,
          bytes_eq_iff usm.authoritative_engine_id engine_id,
        ),
        ground (arith, first),
      ),
)
