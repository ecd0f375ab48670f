-- ===== src/Agent/UsmTests.antt =====
-- Concrete packets of version 3.
use go_snmpsim.Prelude.{◌%◌, ◌≡◌, refl, true, some, none, [], ◌∷◌, Bytes, codes}
use go_snmpsim.Security.{Config, UsmParameters, AuthProtocol, sha, to_gosnmp_auth}
use go_snmpsim.Agent.Usm.{validate_usm_window, check_time}
use go_snmpsim.Agent.Hmac.{Passes, verify_incoming_hmac, verify_incoming_hmac-Passes}
use go_snmpsim.Agent.Decode.{Request, Decoders, Checks, ok, decode_packet}
use go_snmpsim.Agent.Response.{
  Identity, Packet, get_request, Within, user_of, build_response_from_request,
  build_response-Within,
}

-- An HMAC that is the key, and a packet with that digest in it.
abbrev key_digest : AuthProtocol → Bytes → Bytes → Bytes
key_digest proto key text = key

abbrev signed_packet : Bytes
signed_packet = 48 ∷ 4 ∷ 2 ∷ 7 ∷ 9 ∷ 1 ∷ []

passes :
    verify_incoming_hmac key_digest sha (7 ∷ 9 ∷ 5 ∷ []) signed_packet (some (7 ∷ 9 ∷ [])) ≡ true
unfolding verify_incoming_hmac
passes = refl

verify_incoming_hmac-Passes_example :
    Passes key_digest sha (7 ∷ 9 ∷ 5 ∷ []) signed_packet (7 ∷ 9 ∷ [])
verify_incoming_hmac-Passes_example =
    verify_incoming_hmac-Passes key_digest sha (7 ∷ 9 ∷ 5 ∷ []) signed_packet (7 ∷ 9 ∷ []) passes

-- Parameters that do not stand in the packet pass unchecked.
unchecked :
    verify_incoming_hmac key_digest sha (7 ∷ 9 ∷ []) (48 ∷ 5 ∷ []) (some (1 ∷ 2 ∷ [])) ≡ true
unfolding verify_incoming_hmac
unchecked = refl

abbrev config : Config
config = record {
  enabled = true;
  engine_id = codes "e";
  username = codes "user";
  auth = codes "SHA1";
  auth_key = codes "authentication";
  priv = [];
  priv_key = [];
}

abbrev request : Request
request = record {
  packet = record {
    is_version3 = true;
    usm = some (record {
      authoritative_engine_id = codes "e";
      authoritative_engine_boots = 1;
      authoritative_engine_time = 100;
      user_name = codes "user";
    });
  };
  msg_flags = 1;
  auth_params = some (7 ∷ 9 ∷ []);
  pdu_type = get_request;
  community = [];
  context_name = [];
  context_engine_id = [];
  variables = [];
  non_repeaters = 0;
  max_repetitions = 0;
}

abbrev decoders : Decoders
decoders = record {
  secure = λ packet. ok request;
  no_auth = λ packet. none;
  version2c = λ packet. none;
  version1 = λ packet. none;
}

abbrev checks : Checks
checks = record {
  config = config;
  secret_key = 7 ∷ 9 ∷ 5 ∷ [];
  engine_boots = 1;
  now = 110;
  hmac = key_digest;
}

decoded : decode_packet decoders checks signed_packet ≡ some (request, [])
unfolding decode_packet verify_incoming_hmac to_gosnmp_auth validate_usm_window check_time
decoded = refl

abbrev agent : Identity
agent = record { config = config; engine_boots = 1; uptime_seconds = 5 }

abbrev question : Packet
question = record {
  is_version3 = true;
  pdu_type = get_request;
  msg_flags = 4;
  user_security_model = true;
  context_engine_id = [];
  usm = none;
  variables = [];
  error = 0;
  error_index = 0;
}

build_response-Within_example :
    let response = build_response_from_request agent question [] 0 0 in
    (response.msg_flags ≡ question.msg_flags % 4)
    × ((usm : UsmParameters) × (response.usm ≡ some usm)
        × Within agent.config question.msg_flags usm
        × (usm.authoritative_engine_id ≡ agent.config.engine_id)
        × (usm.authoritative_engine_boots ≡ agent.engine_boots)
        × (usm.user_name ≡ user_of agent.config.username question.usm))
build_response-Within_example = build_response-Within agent question [] 0 0 refl
