-- ===== src/Agent/Response.antt =====
-- internal/agent/agent.go: the packet of a response, and the reports of SNMPv3. A set of message flags
-- is a number; its two lowest bits are those of gosnmp's AuthPriv.
use go_snmpsim.Prelude.{
  ℕ, ◌≤◌, ◌%◌, ◌≡◌, ◌⊎◌, refl, ◌∙◌, Bool, true, Option, none, some, List, [], ◌∷◌, Bytes, codes,
  is_empty, ◌==◌, arith, inl, inr, Bool-cases, if◌then◌else◌,
}
use go_snmpsim.Snmp.{counter32, uint, Pdu}
use go_snmpsim.Security.{
  Config, UsmParameters, build_usm, to_gosnmp_auth, to_gosnmp_priv, no_auth, no_priv,
}

pub data PduType : Type 0 where
  get_request get_next_request get_bulk_request set_request get_response report : PduType

-- gosnmp.SnmpPacket, as far as the responses set it.
pub record Packet : Type 0 where
  pub is_version3 : Bool
  pub pdu_type : PduType
  pub msg_flags : ℕ
  pub user_security_model : Bool
  pub context_engine_id : Bytes
  pub usm : Option UsmParameters
  pub variables : List Pdu
  pub error : ℕ
  pub error_index : ℕ

-- The configuration and the state of the agent that a response uses.
pub record Identity : Type 0 where
  pub config : Config
  pub engine_boots : ℕ
  pub uptime_seconds : ℕ

unfoldable pub v3_config_for_flags : Config → ℕ → Config
v3_config_for_flags cfg flags =
    let level = flags % 4 in
    if level == 0
    then record cfg { auth = []; auth_key = []; priv = []; priv_key = [] }
    else if level == 1
    then record cfg { priv = []; priv_key = [] }
    else cfg

-- The function `buildResponseFromRequest`.
abbrev answered : Packet → List Pdu → ℕ → ℕ → Packet
answered req vars err_code err_index = record req {
  pdu_type = get_response;
  variables = vars;
  error = err_code;
  error_index = err_index;
}

-- The user name of the request, or the configured one.
abbrev pub user_of : Bytes → Option UsmParameters → Bytes
user_of username none = username
user_of username (some usm) = if is_empty usm.user_name then username else usm.user_name

-- The method `buildResponseFromRequest`.
unfoldable pub build_response_from_request : Identity → Packet → List Pdu → ℕ → ℕ → Packet
unfolding v3_config_for_flags build_usm
build_response_from_request agent req vars err_code err_index =
    let response = answered req vars err_code err_index in
    let flags = req.msg_flags % 4 in
    let cfg = record (v3_config_for_flags agent.config flags) {
      username = user_of agent.config.username req.usm;
    } in
    if req.is_version3
    then record response {
      msg_flags = flags;
      user_security_model = true;
      context_engine_id = agent.config.engine_id;
      usm = some (build_usm cfg agent.engine_boots agent.uptime_seconds);
    }
    else response

-- `BuildUSMReportVar`
abbrev report_var : Bytes → Pdu
report_var oid = record { name = oid; type = counter32; value = uint 1 }

-- `handleV3USMReport`, up to the encoding.
unfoldable pub usm_report : Identity → Packet → Bytes → Packet
unfolding build_response_from_request
usm_report agent req oid =
    record (build_response_from_request agent req (report_var oid ∷ []) 0 0) { pdu_type = report }

abbrev rename_user : Bytes → Option UsmParameters → Option UsmParameters
rename_user username none = none
rename_user username (some usm) = some (record usm { user_name = username })

abbrev requested_user : Option UsmParameters → Bytes
requested_user none = []
requested_user (some usm) = usm.user_name

-- `handleV3DiscoveryReport`, up to the encoding.
unfoldable pub discovery_report : Identity → Packet → Packet
unfolding build_response_from_request
discovery_report agent req =
    let response =
      build_response_from_request agent req (report_var (codes ".1.3.6.1.6.3.15.1.1.4.0") ∷ []) 0
        0 in
    record response { pdu_type = report; usm = rename_user (requested_user req.usm) response.usm }

-- The configured part of authentication, and of privacy.
abbrev HasAuth : Config → UsmParameters → Type 0
HasAuth config usm =
    (usm.authentication_protocol ≡ to_gosnmp_auth config)
    × (usm.authentication_passphrase ≡ config.auth_key)

abbrev HasPriv : Config → UsmParameters → Type 0
HasPriv config usm =
    (usm.privacy_protocol ≡ to_gosnmp_priv config) × (usm.privacy_passphrase ≡ config.priv_key)

-- What a response carries and what it may not carry, by the two lowest bits of the flags.
pub record Within (config : Config) (flags : ℕ) (usm : UsmParameters) : Type 0 where
  pub no_auth_below :
      flags % 4 ≡ 0 → (usm.authentication_protocol ≡ no_auth) × (usm.authentication_passphrase ≡ [])
  pub no_priv_below :
      (flags % 4 ≡ 0) ⊎ (flags % 4 ≡ 1)
      → (usm.privacy_protocol ≡ no_priv) × (usm.privacy_passphrase ≡ [])
  pub auth_from_1 : 1 ≤ flags % 4 → HasAuth config usm
  pub priv_from_2 : 2 ≤ flags % 4 → HasPriv config usm

same_engine :
    (config : Config) (flags : ℕ) → (v3_config_for_flags config flags).engine_id ≡ config.engine_id
unfolding v3_config_for_flags
same_engine config flags = ground arith

module _ (config : Config) (flags : ℕ) (user : Bytes) (boots time : ℕ) where
  abbrev usm_for : UsmParameters
  usm_for = build_usm (record (v3_config_for_flags config flags) { username = user }) boots time

  at_lowest :
      flags % 4 ≡ 0
      → (usm_for.authentication_protocol ≡ no_auth)
        × (usm_for.authentication_passphrase ≡ [])
        × (usm_for.privacy_protocol ≡ no_priv)
        × (usm_for.privacy_passphrase ≡ [])
  unfolding build_usm v3_config_for_flags to_gosnmp_auth to_gosnmp_priv
  at_lowest e = rw e (refl, refl, refl, refl)

  at_middle :
      flags % 4 ≡ 1 → (usm_for.privacy_protocol ≡ no_priv) × (usm_for.privacy_passphrase ≡ [])
  unfolding build_usm v3_config_for_flags to_gosnmp_priv
  at_middle e = rw e (refl, refl)

  has_auth : 1 ≤ flags % 4 → HasAuth config usm_for
  unfolding build_usm v3_config_for_flags to_gosnmp_auth
  has_auth h = elim (Bool-cases (flags % 4 == 0)) [
    | inl e ↦ absurd (ground arith)
    | inr e ↦ elim (Bool-cases (flags % 4 == 1)) [
      | inl f ↦ rw (e, f) (refl, refl)
      | inr f ↦ rw (e, f) (refl, refl)
    ]
  ]

  has_priv : 2 ≤ flags % 4 → HasPriv config usm_for
  unfolding build_usm v3_config_for_flags to_gosnmp_priv
  has_priv h = elim (Bool-cases (flags % 4 == 0)) [
    | inl e ↦ absurd (ground arith)
    | inr e ↦ elim (Bool-cases (flags % 4 == 1)) [
      | inl f ↦ absurd (ground arith)
      | inr f ↦ rw (e, f) (refl, refl)
    ]
  ]

  usm_for-Within : Within config flags usm_for
  usm_for-Within = record {
    no_auth_below = λ e. let low = at_lowest e in (low.0, low.1);
    no_priv_below = λ e. below e;
    auth_from_1 = λ h. has_auth h;
    priv_from_2 = λ h. has_priv h;
  }
    where
      below :
          (flags % 4 ≡ 0) ⊎ (flags % 4 ≡ 1)
          → (usm_for.privacy_protocol ≡ no_priv) × (usm_for.privacy_passphrase ≡ [])
      below (inl e) = let low = at_lowest e in (low.2, low.3)
      below (inr e) = at_middle e

-- A response to a request of version 3 has the two lowest bits of the request's flags. Where both are
-- off, its parameters name no authentication protocol and no key; otherwise the configured ones. Where
-- the second bit, which is that of privacy, is off, they name no privacy protocol and no key; where it is
-- on, with or without that of authentication, the configured ones. They name the engine with its boots,
-- and the user of the request, if that names one.
pub build_response-Within :
    (agent : Identity) (req : Packet) (vars : List Pdu) (code index : ℕ)
    → req.is_version3 ≡ true
    → let response = build_response_from_request agent req vars code index in
      (response.msg_flags ≡ req.msg_flags % 4)
      × ((usm : UsmParameters) × (response.usm ≡ some usm)
          × Within agent.config req.msg_flags usm
          × (usm.authoritative_engine_id ≡ agent.config.engine_id)
          × (usm.authoritative_engine_boots ≡ agent.engine_boots)
          × (usm.user_name ≡ user_of agent.config.username req.usm))
unfolding build_response_from_request
build_response-Within agent req vars code index v3 =
    let flags = req.msg_flags % 4 in
    let user = user_of agent.config.username req.usm in
    let usm = usm_for agent.config flags user agent.engine_boots agent.uptime_seconds in
    let same : flags % 4 ≡ flags = omega arith in
    let within = usm_for-Within agent.config flags user agent.engine_boots agent.uptime_seconds in
    let within' : Within agent.config req.msg_flags usm = record {
      no_auth_below = λ e. within.no_auth_below (same ∙ e);
      no_priv_below = λ e. within.no_priv_below (rw same e);
      auth_from_1 = λ h. within.auth_from_1 (omega (arith, same, h));
      priv_from_2 = λ h. within.priv_from_2 (omega (arith, same, h));
    } in
    rw v3 (refl, (usm, refl, within', same_engine agent.config flags, refl, refl))
