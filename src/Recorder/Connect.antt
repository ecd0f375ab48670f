-- ===== src/Recorder/Connect.antt =====
-- internal/recorder/record.go: the client of a walk. The protocols of version 3 are read by the functions
-- of internal/traps/traps.go, which have the text of this file's.
use go_snmpsim.Prelude.{
  ℕ, ◌*◌, ◌^◌, not, ◌&&◌, Option, none, some, [], Bytes, codes, is_empty, text_eq, ◌==◌,
  if◌then◌else◌,
}
use go_snmpsim.Oid.{int_less}
use go_snmpsim.Security.{
  AuthProtocol, no_auth, PrivProtocol, no_priv, MsgFlags, no_auth_no_priv, auth_no_priv, auth_priv,
}
use go_snmpsim.Traps.{parse_v3_auth, parse_v3_priv, is_no_auth, is_no_priv}
use go_snmpsim.Recorder.{Options}

-- gosnmp's client, as far as it is set.
pub data Credentials : Type 0 where
  v2c : (community : Bytes) → Credentials
  v3 :
      (user : Bytes) (auth : AuthProtocol) (auth_key : Bytes) (priv : PrivProtocol)
      (priv_key : Bytes) (flags : MsgFlags)
      → Credentials

pub record Connection : Type 0 where
  pub target : Bytes
  pub port : ℕ
  pub timeout : ℕ
  pub retries : ℕ
  pub credentials : Credentials

-- The part of `newClient` for a user; `none` for an error.
unfoldable pub v3_credentials : Options → Option Credentials
unfolding parse_v3_auth parse_v3_priv
v3_credentials opts =
    let auth = parse_v3_auth opts.v3_auth in
    let priv = parse_v3_priv opts.v3_priv in
    if not (is_no_auth auth) && is_empty opts.v3_auth_key
    then none
    else if not (is_no_priv priv) && is_no_auth auth
    then none
    else if not (is_no_priv priv) && is_empty opts.v3_priv_key
    then none
    else if is_no_auth auth
    then some (v3 opts.v3_user no_auth [] no_priv [] no_auth_no_priv)
    else if is_no_priv priv
    then some (v3 opts.v3_user auth opts.v3_auth_key no_priv [] auth_no_priv)
    else some (v3 opts.v3_user auth opts.v3_auth_key priv opts.v3_priv_key auth_priv)

unfoldable pub credentials_of : Options → Option Credentials
unfolding v3_credentials
credentials_of opts =
    if not (is_empty opts.community) && not (is_empty opts.v3_user)
    then none
    else if not (is_empty opts.v3_user)
    then v3_credentials opts
    else if is_empty opts.community
    then none
    else some (v2c opts.community)

unfoldable pub new_client : Options → Option Connection
unfolding credentials_of
new_client opts = elim (credentials_of opts) [
  | none ↦ none
  | some credentials ↦ some (record {
    target = if is_empty opts.target then codes "127.0.0.1" else opts.target;
    port = if opts.port == 0 then 161 else opts.port;
    timeout = if int_less 0 opts.timeout then opts.timeout else 2 * 10 ^ 9;
    retries = if int_less opts.retries 0 then 0 else opts.retries;
    credentials = credentials;
  })
]
