-- ===== src/Agent/PacketTests.antt =====
-- A packet of version 3 from its bytes to the response.
use go_snmpsim.Prelude.{ℕ, ◌≡◌, refl, true, some, none, [], ◌∷◌, Bytes, codes}
use go_snmpsim.Snmp.{int}
use go_snmpsim.Security.{to_gosnmp_auth}
use go_snmpsim.Agent.{Outside}
use go_snmpsim.Agent.Handlers.{State, handle_get_request}
use go_snmpsim.Agent.Usm.{
  UsmSecurityParameters, IsTimely, validate_usm_window, should_send_v3_discovery_report, check_time,
}
use go_snmpsim.Agent.Hmac.{verify_incoming_hmac}
use go_snmpsim.Agent.Response.{get_request, build_response_from_request}
use go_snmpsim.Agent.Decode.{Request, Decoders, ok, wants_auth, verified, decode_packet}
use go_snmpsim.Agent.Packets.{
  Serving, Sent, sent_of, request_packet, checks, identity, reply_to, handle_packet_from,
}
use go_snmpsim.Agent.Guarded.{is_response, handle_packet_from-guarded}

abbrev still : Outside (Unit {0})
still = record { uptime_ticks = λ w. (0, w); cpu_load = λ w. (7, w) }

abbrev zero_source : Unit {0} → ℕ → ℕ × Unit {0}
zero_source s n = (0, s)

abbrev idle : State (Unit {0}) (Unit {0})
idle = record { binder = none; world = tt }

abbrev serving : Serving
serving = record {
  agent = record {
    device_id = 3;
    port = 1161;
    sys_name = codes "router";
    device_mapping = none;
    device_overlay = (codes "1.9", int 5) ∷ [];
  };
  database = none;
  index = none;
  router = none;
  datasets = none;
  config = record {
    enabled = true;
    engine_id = codes "e";
    username = codes "user";
    auth = codes "SHA1";
    auth_key = codes "authentication";
    priv = [];
    priv_key = [];
  };
  secret_key = 7 ∷ 9 ∷ 5 ∷ [];
  engine_boots = 1;
  hmac = λ proto key text. key;
}

abbrev usm : UsmSecurityParameters
usm = record {
  authoritative_engine_id = codes "e";
  authoritative_engine_boots = 1;
  authoritative_engine_time = 100;
  user_name = codes "user";
}

-- A GET without variables, signed.
abbrev request : Request
request = record {
  packet = record { is_version3 = true; usm = some usm };
  msg_flags = 1;
  auth_params = some (7 ∷ 9 ∷ []);
  pdu_type = get_request;
  community = [];
  context_name = [];
  context_engine_id = [];
  variables = [];
  non_repeaters = 0;
  max_repetitions = 0;
}

abbrev decoders : Decoders
decoders = record {
  secure = λ packet. ok request;
  no_auth = λ packet. none;
  version2c = λ packet. none;
  version1 = λ packet. none;
}

abbrev signed : Bytes
signed = 48 ∷ 4 ∷ 2 ∷ 7 ∷ 9 ∷ 1 ∷ []

abbrev handled : Sent × State (Unit {0}) (Unit {0})
handled = handle_packet_from zero_source still serving 0 decoders 110 111 [] 1161 signed idle

responds : is_response handled.0 ≡ true
unfolding handle_packet_from decode_packet verify_incoming_hmac to_gosnmp_auth validate_usm_window
    check_time should_send_v3_discovery_report handle_get_request build_response_from_request
    request_packet
responds = refl

handle_packet_from-guarded_example :
    let replied = reply_to zero_source still serving 0 [] 1161 request idle in
    ((u : UsmSecurityParameters) × (some usm ≡ some u) × IsTimely (codes "e") 1 110 u)
    × (wants_auth request ≡ true → verified (checks serving 110) signed request ≡ true)
    × (handled ≡ (sent_of (identity serving 111) request replied.0, replied.1))
handle_packet_from-guarded_example =
    handle_packet_from-guarded zero_source still serving 0 111 [] 1161 decoders 110 signed request
      idle refl refl refl refl responds

-- Without the flag for authentication the same agent answers an unsigned packet.
abbrev unsigned : Request
unsigned = record request { msg_flags = 0; auth_params = some [] }

unsigned_responds :
    is_response
      (handle_packet_from zero_source still serving 0
        (record decoders { secure = λ packet. ok unsigned })
        110
        111
        []
        1161
        signed
        idle).0
    ≡ true
unfolding handle_packet_from decode_packet verify_incoming_hmac to_gosnmp_auth validate_usm_window
    check_time should_send_v3_discovery_report handle_get_request build_response_from_request
    request_packet
unsigned_responds = refl
