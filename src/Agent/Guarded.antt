-- ===== src/Agent/Guarded.antt =====
-- internal/agent/agent.go: who gets a response from an agent with SNMPv3.
use go_snmpsim.Prelude.{
  ℕ, ◌≡◌, refl, ap, Bool, true, false, some, [], ◌∷◌, Bytes, is_empty, Bool-cases, inl, inr,
}
use go_snmpsim.Security.{to_gosnmp_auth}
use go_snmpsim.Agent.{Outside}
use go_snmpsim.Agent.Handlers.{Reply, State}
use go_snmpsim.Agent.Usm.{
  UsmSecurityParameters, IsTimely, v3_request, validate_usm_window, should_send_v3_discovery_report,
  accepts_iff,
}
use go_snmpsim.Agent.Response.{
  get_response, get_request, get_next_request, get_bulk_request, set_request, report, usm_report,
  discovery_report,
}
use go_snmpsim.Agent.Decode.{
  Request, Decoders, ok, wants_auth, verified, report_for, report_for-empty, decode_packet, if_then,
}
use go_snmpsim.Agent.Packets.{
  Serving, Sent, nothing, broken, packet, sent_of, checks, identity, reply_to, after_decoding,
  handle_packet_from,
}

abbrev pub is_response : Sent → Bool
is_response nothing = false
is_response broken = false
is_response (packet p) = elim p.pdu_type [
  | get_response ↦ true
  | report ↦ false
  | get_request ↦ false
  | get_next_request ↦ false
  | get_bulk_request ↦ false
  | set_request ↦ false
]

module _ {Rng W : Type 0} (int63n : Rng → ℕ → ℕ × Rng) (outside : Outside W) (serving : Serving)
    (now : ℕ) (answered_at : ℕ) (src_ip : Bytes) (dst_port : ℕ) where
  abbrev replied : Request → State Rng W → Reply × State Rng W
  replied = reply_to int63n outside serving now src_ip dst_port

  -- What a response behind the decoding says of the request.
  after_decoding-response :
      (req : Request) (oid : Bytes) (s : State Rng W)
      → let after =
          after_decoding int63n outside serving now answered_at src_ip dst_port req oid s in
        is_response after.0 ≡ true
        → (oid ≡ [])
          × (should_send_v3_discovery_report serving.config.enabled req.packet ≡ false)
          × (after
              ≡ (sent_of (identity serving answered_at) req (replied req s).0, (replied req s).1))
  unfolding after_decoding usm_report discovery_report
  after_decoding-response req [] s h =
      elim (Bool-cases (should_send_v3_discovery_report serving.config.enabled req.packet)) [
        | inl yes_report ↦ let no : false ≡ true = rw (after_decoding, yes_report) at h in cc
        | inr no_report ↦ (refl, no_report, rw (after_decoding, no_report) refl)
      ]
  after_decoding-response req (c ∷ oid) s h = cc

  -- An agent with SNMPv3 whose engine has a name sends a response to a packet that it decodes as one of
  -- version 3 only if the request names the engine, its boots and a time at most 150 seconds off, and
  -- passes the check of the HMAC, if its flags ask for authentication. The response is then what the
  -- handler of its type replies from the selected dataset.
  pub handle_packet_from-guarded :
      (decoders : Decoders) (checked_at : ℕ) (bytes : Bytes) (req : Request) (s : State Rng W)
      → serving.config.enabled ≡ true
      → is_empty serving.config.engine_id ≡ false
      → decoders.secure bytes ≡ ok req
      → req.packet.is_version3 ≡ true
      → let handled =
          handle_packet_from int63n outside serving now decoders checked_at answered_at src_ip
            dst_port bytes s in
        is_response handled.0 ≡ true
        → ((usm : UsmSecurityParameters) × (req.packet.usm ≡ some usm)
            × IsTimely serving.config.engine_id serving.engine_boots checked_at usm)
          × (wants_auth req ≡ true → verified (checks serving checked_at) bytes req ≡ true)
          × (handled
              ≡ (sent_of (identity serving answered_at) req (replied req s).0, (replied req s).1))
  unfolding handle_packet_from decode_packet to_gosnmp_auth
  handle_packet_from-guarded decoders checked_at bytes req s on named secure v3 h =
      let checking = checks serving checked_at in
      let oid = report_for checking bytes req in
      let decoded : decode_packet decoders checking bytes ≡ some (req, oid) =
        rw (decode_packet, on, secure) (if_then req.packet.is_version3 (some (req, oid)) _ v3) in
      let after : is_response
            (after_decoding int63n outside serving now answered_at src_ip dst_port req oid s).0
          ≡ true =
        rw (handle_packet_from, decoded) at h in
      let (quiet, known, same) = after_decoding-response req oid s after in
      let (valid, authentic) = report_for-empty checking bytes req quiet in
      let is_v3 : req.packet ≡ v3_request req.packet.usm =
        ap (λ b. record req.packet { is_version3 = b }) v3 in
      let discovery : should_send_v3_discovery_report true (v3_request req.packet.usm) ≡ false =
        rw (on, is_v3) at known in
      let window : validate_usm_window serving.config.engine_id serving.engine_boots checked_at
            (v3_request req.packet.usm)
          ≡ [] =
        rw is_v3 at valid in
      (
        (accepts_iff serving.config.engine_id serving.engine_boots checked_at req.packet.usm
              named).0
            (window, discovery),
        authentic,
        rw (handle_packet_from, decoded) same,
      )
