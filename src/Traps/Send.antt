-- ===== src/Traps/Send.antt =====
-- internal/traps/traps.go: builders and `Send`. The network is a state of the outside world; connecting
-- to a client, sending and closing are parameters, which say whether they succeeded.
use go_snmpsim.Prelude.{
  ℕ, ◌%◌, ◌≡◌, Bool, true, false, Option, none, some, List, [], ◌∷◌, ◌++◌, Bytes, codes, bytes_eq,
  if◌then◌else◌,
}
use go_snmpsim.Snmp.{timeticks, object_identifier, uint32, string, Pdu}
use go_snmpsim.Security.{
  AuthProtocol, PrivProtocol, MsgFlags, no_auth_no_priv, auth_no_priv, auth_priv,
}
use go_snmpsim.Traps.{Config, Message, parse_v3_auth, parse_v3_priv, is_no_auth, is_no_priv}
use go_snmpsim.Traps.Targets.{parse_target}

-- The parameters of a client of version 3.
pub record V3Parameters : Type 0 where
  pub user : Bytes
  pub auth : AuthProtocol
  pub auth_key : Bytes
  pub priv : PrivProtocol
  pub priv_key : Bytes

pub data Builder : Type 0 where
  v2_builder : (community : Bytes) (timeout retries : ℕ) → Builder
  v3_builder : (parameters : V3Parameters) (timeout retries : ℕ) → Builder

-- How a client identifies itself.
pub data Identity : Type 0 where
  community_of : Bytes → Identity
  user_of : MsgFlags → V3Parameters → Identity

-- gosnmp.GoSNMP, as far as the builders set it.
pub record Client : Type 0 where
  pub host : Bytes
  pub port : ℕ
  pub timeout : ℕ
  pub retries : ℕ
  pub identity : Identity

flags_of : V3Parameters → MsgFlags
flags_of p =
    if is_no_priv p.priv
    then (if is_no_auth p.auth then no_auth_no_priv else auth_no_priv)
    else auth_priv

client_at : Builder → Bytes × ℕ → Client
unfolding flags_of
client_at (v2_builder community timeout retries) (host, port) = record {
  host = host;
  port = port;
  timeout = timeout;
  retries = retries;
  identity = community_of community;
}
client_at (v3_builder parameters timeout retries) (host, port) = record {
  host = host;
  port = port;
  timeout = timeout;
  retries = retries;
  identity = user_of (flags_of parameters) parameters;
}

-- `Build` of both builders.
unfoldable pub build : Builder → Bytes → Option Client
unfolding parse_target client_at
build builder target = elim (parse_target target) [
  | none ↦ none
  | some address ↦ some (client_at builder address)
]

unfoldable pub new_builder : Config → Builder
unfolding parse_v3_auth parse_v3_priv
new_builder cfg =
    if bytes_eq cfg.version (codes "v3")
    then v3_builder
        (record {
          user = cfg.v3_user;
          auth = parse_v3_auth cfg.v3_auth;
          auth_key = cfg.v3_auth_key;
          priv = parse_v3_priv cfg.v3_priv;
          priv_key = cfg.v3_priv_key;
        })
        cfg.timeout cfg.retries
    else v2_builder cfg.community cfg.timeout cfg.retries

-- gosnmp.SnmpTrap
pub record Trap : Type 0 where
  pub variables : List Pdu
  pub is_inform : Bool

-- The trap of a message at a Unix time.
unfoldable pub trap_of : ℕ → Bool → Message → Trap
trap_of now inform message = record {
  variables =
      (record {
        name = codes ".1.3.6.1.2.1.1.3.0";
        type = timeticks;
        value = uint32 (now % 4294967295);
      })
      ∷ (record {
        name = codes ".1.3.6.1.6.3.1.1.4.1.0";
        type = object_identifier;
        value = string message.trap_oid;
      })
      ∷ message.vars;
  is_inform = inform;
}

pub record Network (W : Type 0) : Type 0 where
  pub connect : Client → W → Bool × W
  pub send_trap : Client → Trap → W → Bool × W
  pub close : Client → W → W

module _ {W : Type 0} (network : Network W) (builder : Builder) (trap : Trap) where
  deliver_to : Client → W → Bool × W
  deliver_to client w =
      let connected = network.connect client w in
      let sent = network.send_trap client trap connected.1 in
      if connected.0 then (sent.0, network.close client sent.1) else (false, connected.1)

  -- One round of the loop of `Send`: whether there was no error, and the network.
  unfoldable pub deliver : Bytes → W → Bool × W
  unfolding build deliver_to
  deliver target w = elim (build builder target) [
    | none ↦ (false, w)
    | some client ↦ deliver_to client w
  ]

  -- `Send`: the first error ends it.
  unfoldable pub send : List Bytes → W → Bool × W
  send [] w = (true, w)
  send (target ∷ targets) w =
      let sent = deliver target w in
      let rest = send targets sent.1 in if sent.0 then rest else (false, sent.1)

  -- A target got the trap: its client was built and connected, the trap was sent, and the connection
  -- was closed.
  pub record Delivered (target : Bytes) (w v : W) : Type 0 where
    pub client : Client
    pub built : build builder target ≡ some client
    pub connected : (network.connect client w).0 ≡ true
    pub sent : (network.send_trap client trap (network.connect client w).1).0 ≡ true
    pub closed :
        v ≡ network.close client (network.send_trap client trap (network.connect client w).1).1

  -- Each target in turn got the trap.
  pub data AllDelivered : List Bytes → W → W → Type 0 where
    no_targets : {w : W} → AllDelivered [] w w
    delivered :
        {target : Bytes} {targets : List Bytes} {u v w : W}
        → Delivered target u v
        → AllDelivered targets v w
        → AllDelivered (target ∷ targets) u w

  -- How a call of `Send` went: every target got the trap, or those before the first one that failed did,
  -- and those behind it were left alone.
  pub data Went (targets : List Bytes) (w : W) : Bool × W → Type 0 where
    all_sent : (v : W) → AllDelivered targets w v → Went targets w (true, v)
    failed :
        (before after : List Bytes) (target : Bytes) (u v : W)
        → targets ≡ before ++ target ∷ after
        → AllDelivered before w u
        → deliver target u ≡ (false, v)
        → Went targets w (false, v)
