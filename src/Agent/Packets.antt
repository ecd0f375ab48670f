-- ===== src/Agent/Packets.antt =====
-- internal/agent/agent.go: `HandlePacketFrom`, from the bytes of a packet to the packet that is sent back,
-- before gosnmp encodes it. The counters of received packets and the log are left out. A clock is read
-- anew for the check of the time window, for the variations, and for the response.
use mathlib.Core.List.{map}
use go_snmpsim.Prelude.{ℕ, not, Option, none, some, [], Bytes, is_empty, if◌then◌else◌}
use go_snmpsim.Database.{OidDatabase}
use go_snmpsim.Routing.{Router, RequestKey}
use go_snmpsim.Datasets.{DatasetStore}
use go_snmpsim.Security.{Config, AuthProtocol, UsmParameters, no_auth, no_priv}
use go_snmpsim.Agent.{VirtualAgent, IndexManager, Outside}
use go_snmpsim.Agent.Handlers.{
  Reply, response, no_reply, crashed, State, handle_get_request, handle_get_next_request,
  handle_get_bulk_request, handle_set_request,
}
use go_snmpsim.Agent.Usm.{UsmSecurityParameters, should_send_v3_discovery_report}
use go_snmpsim.Agent.Dataset.{request_engine_id, select_dataset}
use go_snmpsim.Agent.Response.{
  get_request, get_next_request, get_bulk_request, set_request, get_response, report, Packet,
  Identity, build_response_from_request, usm_report, discovery_report,
}
use go_snmpsim.Agent.Decode.{Request, Decoders, Checks, decode_packet}

-- The fields of `VirtualAgent` that answering a packet reads.
pub record Serving : Type 0 where
  pub agent : VirtualAgent
  pub database : Option OidDatabase
  pub index : Option IndexManager
  pub router : Option Router
  pub datasets : Option (DatasetStore IndexManager)
  pub config : Config
  pub secret_key : Bytes
  pub engine_boots : ℕ
  pub hmac : AuthProtocol → Bytes → Bytes → Bytes

-- What is sent back: nothing, also where the source returns nil; or a packet. A run-time error is told
-- apart.
pub data Sent : Type 0 where
  nothing : Sent
  broken : Sent
  packet : Packet → Sent

-- The parameters of a request, of which a response takes the user alone.
abbrev named_user : Option UsmSecurityParameters → Option UsmParameters
named_user none = none
named_user (some usm) = some (record {
  authoritative_engine_id = usm.authoritative_engine_id;
  authoritative_engine_boots = usm.authoritative_engine_boots;
  authoritative_engine_time = usm.authoritative_engine_time;
  user_name = usm.user_name;
  authentication_protocol = no_auth;
  privacy_protocol = no_priv;
  authentication_passphrase = [];
  privacy_passphrase = [];
})

-- The request as a response copies it.
unfoldable pub request_packet : Request → Packet
request_packet req = record {
  is_version3 = req.packet.is_version3;
  pdu_type = req.pdu_type;
  msg_flags = req.msg_flags;
  user_security_model = req.packet.is_version3;
  context_engine_id = req.context_engine_id;
  usm = named_user req.packet.usm;
  variables = req.variables;
  error = 0;
  error_index = 0;
}

-- The end of each handler: `buildResponseFromRequest` of what it found.
abbrev pub sent_of : Identity → Request → Reply → Sent
sent_of identity req (response vars code index) =
    packet (build_response_from_request identity (request_packet req) vars code index)
sent_of identity req no_reply = nothing
sent_of identity req crashed = broken

abbrev pub request_key : Request → Bytes → ℕ → RequestKey
request_key req src_ip dst_port = record {
  community = req.community;
  context = req.context_name;
  engine_id = request_engine_id req.context_engine_id req.packet;
  src_ip = src_ip;
  dst_port = dst_port;
}

abbrev pub checks : Serving → ℕ → Checks
checks serving checked_at = record {
  config = serving.config;
  secret_key = serving.secret_key;
  engine_boots = serving.engine_boots;
  now = checked_at;
  hmac = serving.hmac;
}

abbrev pub identity : Serving → ℕ → Identity
identity serving answered_at = record {
  config = serving.config;
  engine_boots = serving.engine_boots;
  uptime_seconds = answered_at;
}

module _ {Rng W : Type 0} (int63n : Rng → ℕ → ℕ × Rng) (outside : Outside W) (serving : Serving)
    (now : ℕ) where
  -- The switch on the type of the request.
  unfoldable pub dispatch :
      Option OidDatabase × Option IndexManager → Request → State Rng W → Reply × State Rng W
  dispatch (odb, index) req s = elim req.pdu_type [
    | get_next_request ↦
        handle_get_next_request int63n outside serving.agent now index odb
          (map (λ v. v.name) req.variables) s
    | set_request ↦ (handle_set_request req.variables, s)
    | get_bulk_request ↦
        handle_get_bulk_request int63n outside serving.agent now index odb req.non_repeaters
          req.max_repetitions (map (λ v. v.name) req.variables) s
    | get_request ↦
        handle_get_request int63n outside serving.agent now odb (map (λ v. v.name) req.variables) s
    | get_response ↦
        handle_get_request int63n outside serving.agent now odb (map (λ v. v.name) req.variables) s
    | report ↦
        handle_get_request int63n outside serving.agent now odb (map (λ v. v.name) req.variables) s
  ]

  -- The reply to a request that passed the checks.
  unfoldable pub reply_to : Bytes → ℕ → Request → State Rng W → Reply × State Rng W
  unfolding dispatch
  reply_to src_ip dst_port req s =
      dispatch
        (select_dataset (serving.database, serving.index) serving.router serving.datasets
          (request_key req src_ip dst_port))
        req s

  -- Behind the decoding, with the report that it asks for.
  unfoldable pub after_decoding :
      (answered_at : ℕ) → Bytes → ℕ → Request → Bytes → State Rng W → Sent × State Rng W
  unfolding reply_to
  after_decoding answered_at src_ip dst_port req oid s =
      let agent = identity serving answered_at in
      if not (is_empty oid)
      then (packet (usm_report agent (request_packet req) oid), s)
      else if should_send_v3_discovery_report serving.config.enabled req.packet
      then (packet (discovery_report agent (request_packet req)), s)
      else (
        sent_of agent req (reply_to src_ip dst_port req s).0,
        (reply_to src_ip dst_port req s).1,
      )

  unfoldable pub handle_packet_from :
      Decoders → (checked_at answered_at : ℕ) → Bytes → ℕ → Bytes → State Rng W → Sent × State Rng W
  unfolding after_decoding
  handle_packet_from decoders checked_at answered_at src_ip dst_port bytes s =
      elim (decode_packet decoders (checks serving checked_at) bytes) [
        | none ↦ (nothing, s)
        | some (req, oid) ↦ after_decoding answered_at src_ip dst_port req oid s
      ]

  -- `HandlePacket`, without an address.
  unfoldable pub handle_packet :
      Decoders → (checked_at answered_at : ℕ) → Bytes → State Rng W → Sent × State Rng W
  unfolding handle_packet_from
  handle_packet decoders checked_at answered_at bytes s =
      handle_packet_from decoders checked_at answered_at [] serving.agent.port bytes s
