-- ===== src/Agent/Decode.antt =====
-- internal/agent/agent.go: `decodePacket`. The decoders of gosnmp are parameters, and so is the HMAC.
use go_snmpsim.Prelude.{
  ℕ, ◌%◌, ◌≡◌, sym, ◌∙◌, Bool, true, not, ◌&&◌, Option, none, some, List, [], Bytes, codes, ◌==◌,
  arith, Bool-cases, inl, inr, if◌then◌else◌,
}
use go_snmpsim.Snmp.{Pdu}
use go_snmpsim.Security.{Config, AuthProtocol, to_gosnmp_auth}
use go_snmpsim.Agent.Usm.{SnmpPacket, validate_usm_window}
use go_snmpsim.Agent.Response.{PduType}
use go_snmpsim.Agent.Hmac.{verify_incoming_hmac}

-- A decoded packet, as far as the agent reads it.
pub record Request : Type 0 where
  pub packet : SnmpPacket
  pub msg_flags : ℕ
  pub auth_params : Option Bytes
  pub pdu_type : PduType
  pub community : Bytes
  pub context_name : Bytes
  pub context_engine_id : Bytes
  pub variables : List Pdu
  pub non_repeaters : ℕ
  pub max_repetitions : ℕ

-- What the decoder of version 3 returns; `isAuthError` tells the errors apart.
pub data Decoded : Type 0 where
  ok : Request → Decoded
  auth_error : Decoded
  other_error : Decoded

pub record Decoders : Type 0 where
  pub secure : Bytes → Decoded
  pub no_auth : Bytes → Option Request
  pub version2c : Bytes → Option Request
  pub version1 : Bytes → Option Request

-- What a packet is checked against.
pub record Checks : Type 0 where
  pub config : Config
  pub secret_key : Bytes
  pub engine_boots : ℕ
  pub now : ℕ
  pub hmac : AuthProtocol → Bytes → Bytes → Bytes

abbrev pub wrong_digest : Bytes
wrong_digest = codes ".1.3.6.1.6.3.15.1.1.5.0"

-- `req.MsgFlags&gosnmp.AuthNoPriv != 0`
abbrev pub wants_auth : Request → Bool
wants_auth req = not (req.msg_flags % 2 == 0)

abbrev pub verified : Checks → Bytes → Request → Bool
verified checks packet req =
    verify_incoming_hmac checks.hmac (to_gosnmp_auth checks.config) checks.secret_key packet
      req.auth_params

-- The report for a packet that was decoded, or the empty text.
unfoldable pub report_for : Checks → Bytes → Request → Bytes
unfolding validate_usm_window
report_for checks packet req =
    if wants_auth req && not (verified checks packet req)
    then wrong_digest
    else validate_usm_window checks.config.engine_id checks.engine_boots checks.now req.packet

abbrev plain : Decoders → Bytes → Option (Request × Bytes)
plain decoders packet = elim (decoders.version2c packet) [
  | some req ↦ some (req, [])
  | none ↦ elim (decoders.version1 packet) [ some req ↦ some (req, []) | none ↦ none ]
]

abbrev with_report : Bytes → Option Request → Option (Request × Bytes)
with_report oid none = none
with_report oid (some req) = some (req, oid)

-- The request and the report to send instead of an answer, if one is not empty; `none` for an error.
unfoldable pub decode_packet : Decoders → Checks → Bytes → Option (Request × Bytes)
unfolding report_for
decode_packet decoders checks packet =
    if checks.config.enabled
    then elim (decoders.secure packet) [
      | ok req ↦
          if req.packet.is_version3
          then some (req, report_for checks packet req)
          else plain decoders packet
      | auth_error ↦ with_report wrong_digest (decoders.no_auth packet)
      | other_error ↦ plain decoders packet
    ]
    else plain decoders packet

pub if_then {ℓ} : {A : Type ℓ} (b : Bool) (x y : A) → b ≡ true → (if b then x else y) ≡ x
if_then b x y e = rw e

some_pair :
    {r r' : Request} {s t : Bytes}
    → ◌≡◌ {A = Option (Request × Bytes)} (some (r, s)) (some (r', t))
    → (r ≡ r') × (s ≡ t)
some_pair h = (cc, cc)

pub report_for-empty :
    (checks : Checks) (packet : Bytes) (req : Request)
    → report_for checks packet req ≡ []
    → (validate_usm_window checks.config.engine_id checks.engine_boots checks.now req.packet ≡ [])
      × (wants_auth req ≡ true → verified checks packet req ≡ true)
unfolding report_for
report_for-empty checks packet req h =
    elim (Bool-cases (wants_auth req && not (verified checks packet req))) [
      | inl bad ↦ cc (rw bad at h)
      | inr good ↦ (rw good at h, λ wants. ground (arith, good, wants))
    ]

-- A packet of version 3 that an agent with version 3 enabled decodes, and for which it sends no report,
-- names the engine in time: the check of the window has no objection. If its flags ask for
-- authentication, it also passed the check of the HMAC.
pub decode_packet-checked :
    (decoders : Decoders) (checks : Checks) (packet : Bytes) (req answered : Request)
    → checks.config.enabled ≡ true
    → decoders.secure packet ≡ ok req
    → req.packet.is_version3 ≡ true
    → decode_packet decoders checks packet ≡ some (answered, [])
    → (answered ≡ req)
      × (validate_usm_window checks.config.engine_id checks.engine_boots checks.now req.packet ≡ [])
      × (wants_auth req ≡ true → verified checks packet req ≡ true)
unfolding decode_packet
decode_packet-checked decoders checks packet req answered on secure v3 h =
    let same : some (req, report_for checks packet req) ≡ some (answered, []) =
      sym (
        if_then req.packet.is_version3 (some (req, report_for checks packet req))
          (plain decoders packet) v3)
      ∙ (rw (on, secure) at h) in
    let (same_request, report) = some_pair same in
    let safe = report_for-empty checks packet req report in (sym same_request, safe.0, safe.1)
