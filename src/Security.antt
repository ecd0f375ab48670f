-- ===== src/Security.antt =====
-- internal/v3/types.go and internal/v3/engine.go: the configuration of SNMPv3 and the boots of the
-- engines. Texts are ASCII where their case matters. The clock and the writing of the state file are
-- left out.
pub mod Keys
pub mod Hex
pub mod Boots
pub mod Levels
pub mod Tests
use go_snmpsim.Prelude.{
  ℕ, ◌+◌, ◌%◌, ◌^◌, Bool, true, false, not, ◌&&◌, ◌||◌, Option, none, some, List, [], ◌∷◌, Bytes,
  codes, is_empty, is_label, bytes_eq, to_upper, Map, text_eq, lookup, put, if◌then◌else◌,
}
use go_snmpsim.Security.Hex.{hex_encode}

-- Flags and protocols of gosnmp.
pub data MsgFlags : Type 0 where
  no_auth_no_priv auth_no_priv auth_priv : MsgFlags

pub data AuthProtocol : Type 0 where
  no_auth md5 sha sha224 sha256 sha384 sha512 : AuthProtocol

pub data PrivProtocol : Type 0 where
  no_priv des aes aes192 aes256 : PrivProtocol

pub record Config : Type 0 where
  pub enabled : Bool
  pub engine_id : Bytes
  pub username : Bytes
  pub auth : Bytes
  pub auth_key : Bytes
  pub priv : Bytes
  pub priv_key : Bytes

unfoldable pub security_level : Config → MsgFlags
security_level c =
    if is_empty c.auth then no_auth_no_priv else if is_empty c.priv then auth_no_priv else auth_priv

unfoldable pub to_gosnmp_auth : Config → AuthProtocol
unfolding to_upper
to_gosnmp_auth c =
    let s = to_upper c.auth in
    if is_label s ("MD5" ∷ [])
    then md5
    else if is_label s ("SHA1" ∷ [])
    then sha
    else if is_label s ("SHA224" ∷ [])
    then sha224
    else if is_label s ("SHA256" ∷ [])
    then sha256
    else if is_label s ("SHA384" ∷ [])
    then sha384
    else if is_label s ("SHA512" ∷ [])
    then sha512
    else no_auth

unfoldable pub to_gosnmp_priv : Config → PrivProtocol
unfolding to_upper
to_gosnmp_priv c =
    let s = to_upper c.priv in
    if is_label s ("DES" ∷ [])
    then des
    else if is_label s ("AES128" ∷ [])
    then aes
    else if is_label s ("AES192" ∷ [])
    then aes192
    else if is_label s ("AES256" ∷ [])
    then aes256
    else no_priv

-- `Validate`: there is no error.
unfoldable pub validate : Config → Bool
unfolding to_upper
validate c =
    if not c.enabled
    then true
    else if is_empty c.username
    then false
    else if not (is_empty c.auth) && is_empty c.auth_key
    then false
    else if not (is_empty c.priv) && (is_empty c.auth || is_empty c.priv_key)
    then false
    else not (bytes_eq (to_upper c.priv) (codes "3DES"))

pub record UsmParameters : Type 0 where
  pub authoritative_engine_id : Bytes
  pub authoritative_engine_boots : ℕ
  pub authoritative_engine_time : ℕ
  pub user_name : Bytes
  pub authentication_protocol : AuthProtocol
  pub privacy_protocol : PrivProtocol
  pub authentication_passphrase : Bytes
  pub privacy_passphrase : Bytes

unfoldable pub build_usm : Config → ℕ → ℕ → UsmParameters
unfolding to_gosnmp_auth to_gosnmp_priv
build_usm c boots engine_time = record {
  authoritative_engine_id = c.engine_id;
  authoritative_engine_boots = boots;
  authoritative_engine_time = engine_time;
  user_name = c.username;
  authentication_protocol = to_gosnmp_auth c;
  privacy_protocol = to_gosnmp_priv c;
  authentication_passphrase = c.auth_key;
  privacy_passphrase = c.priv_key;
}

-- `EngineState`, without the time of the update.
pub record EngineState : Type 0 where
  pub engine_id : Bytes
  pub boots : ℕ

abbrev pub States : Type 0
States = Map Bytes EngineState

abbrev pub next_state : Bytes → Option EngineState → EngineState
next_state map_key none = record { engine_id = map_key; boots = 1 }
next_state map_key (some st) = record { engine_id = map_key; boots = (st.boots + 1) % 2 ^ 32 }

-- `EnsureBoots`: the boots, and the states that are saved.
unfoldable pub ensure_boots : Bytes → States → ℕ × States
unfolding hex_encode
ensure_boots engine_id state =
    let map_key = hex_encode engine_id in
    let st = next_state map_key (lookup map_key state) in (st.boots, put map_key st state)
