-- ===== src/Traps.antt =====
-- internal/traps/traps.go. An error is `none`. The channel of a manager is the list of its messages; the
-- goroutine, its stop and the schedule of cron are left out. Texts are ASCII where their case matters.
pub mod Targets
pub mod Wanted
pub mod Made
pub mod Queue
pub mod Send
pub mod Tests
use mathlib.Core.List.{map}
use go_snmpsim.Prelude.{
  ℕ, ◌+◌, ◌*◌, ◌^◌, Bool, true, false, not, ◌&&◌, ◌||◌, Option, none, some, List, [], ◌∷◌, ◌++◌,
  Bytes, codes, is_empty, is_label, bytes_eq, trim_space, to_lower, to_upper, length, ltb, ◌==◌,
  if◌then◌else◌,
}
use go_snmpsim.Oid.{int_less}
use go_snmpsim.Snmp.{integer, octet_string, Value, string, int, Pdu}
use go_snmpsim.Strconv.Substrings.{trim_prefix}
use go_snmpsim.Security.{
  AuthProtocol, no_auth, md5, sha, sha224, sha256, sha384, sha512, PrivProtocol, no_priv, des, aes,
  aes192, aes256,
}
use go_snmpsim.Traps.Targets.{normalize_targets}

-- A duration is the bit pattern of its nanoseconds.
pub record Config : Type 0 where
  pub targets : List Bytes
  pub version : Bytes
  pub community : Bytes
  pub v3_user : Bytes
  pub v3_auth : Bytes
  pub v3_auth_key : Bytes
  pub v3_priv : Bytes
  pub v3_priv_key : Bytes
  pub cron_specs : List Bytes
  pub on_variation : Bool
  pub on_set_oids : List Bytes
  pub inform : Bool
  pub timeout : ℕ
  pub retries : ℕ

unfoldable pub parse_v3_auth : Bytes → AuthProtocol
unfolding to_upper trim_space
parse_v3_auth text =
    let s = to_upper (trim_space text) in
    if is_label s ("MD5" ∷ [])
    then md5
    else if is_label s ("SHA" ∷ "SHA1" ∷ [])
    then sha
    else if is_label s ("SHA224" ∷ [])
    then sha224
    else if is_label s ("SHA256" ∷ [])
    then sha256
    else if is_label s ("SHA384" ∷ [])
    then sha384
    else if is_label s ("SHA512" ∷ [])
    then sha512
    else no_auth

unfoldable pub parse_v3_priv : Bytes → PrivProtocol
unfolding to_upper trim_space
parse_v3_priv text =
    let s = to_upper (trim_space text) in
    if is_label s ("DES" ∷ [])
    then des
    else if is_label s ("AES" ∷ "AES128" ∷ [])
    then aes
    else if is_label s ("AES192" ∷ [])
    then aes192
    else if is_label s ("AES256" ∷ [])
    then aes256
    else no_priv

abbrev pub is_no_auth : AuthProtocol → Bool
is_no_auth no_auth = true
is_no_auth proto = false

abbrev pub is_no_priv : PrivProtocol → Bool
is_no_priv no_priv = true
is_no_priv proto = false

-- The checks of `Normalize` on version 3: there is no error.
unfoldable pub v3_is_sound : Config → Bool
unfolding trim_space parse_v3_auth parse_v3_priv
v3_is_sound c =
    if is_empty c.v3_user
    then false
    else if is_no_auth (parse_v3_auth c.v3_auth)
    then is_empty (trim_space c.v3_auth_key)
      && (is_empty (trim_space c.v3_priv) && is_empty (trim_space c.v3_priv_key))
    else if is_empty c.v3_auth_key
    then false
    else if not (is_no_priv (parse_v3_priv c.v3_priv)) && is_empty c.v3_priv_key
    then false
    else not (is_no_priv (parse_v3_priv c.v3_priv) && not (is_empty c.v3_priv_key))

-- `2 * time.Second`
abbrev two_seconds : ℕ
two_seconds = 2 * 10 ^ 9

-- With the defaults for what is not positive or is negative.
abbrev pub with_defaults : Config → List Bytes → Config
with_defaults c targets = record c {
  targets = targets;
  timeout = if int_less 0 c.timeout then c.timeout else two_seconds;
  retries = if int_less c.retries 0 then 0 else c.retries;
}

normalize_version : Config → Config
unfolding trim_space to_lower
normalize_version c =
    let version = to_lower (trim_space c.version) in
    record c { version = if is_empty version then codes "v2c" else version }

abbrev pub finish : Config → Option Config
finish c =
    if bytes_eq c.version (codes "v2c")
    then some
        (record c { community = if is_empty c.community then codes "public" else c.community })
    else if v3_is_sound c
    then some c
    else none

-- `Normalize`, with the configuration that it leaves where there is no error.
unfoldable pub normalize : Config → Option Config
unfolding normalize_version normalize_targets v3_is_sound
normalize c =
    let v = normalize_version c in
    if not (bytes_eq v.version (codes "v2c")) && not (bytes_eq v.version (codes "v3"))
    then none
    else elim c.targets [
      | [] ↦ some v
      | t ∷ ts ↦ elim (normalize_targets (t ∷ ts)) [
        | none ↦ none
        | some targets ↦ finish (with_defaults v targets)
      ]
    ]

pub record Message : Type 0 where
  pub trap_oid : Bytes
  pub vars : List Pdu

-- What a manager decides by, and its queue.
pub record Manager : Type 0 where
  pub on_variation : Bool
  pub on_set_oids : List Bytes
  pub queue : List Message

abbrev pub queue_size : ℕ
queue_size = 1024

-- `onSet`, as the list of its keys.
unfoldable pub on_set_of : List Bytes → List Bytes
unfolding trim_space trim_prefix
on_set_of [] = []
on_set_of (o ∷ oids) =
    let oid = trim_prefix (trim_space o) (codes ".") in
    let rest = on_set_of oids in if is_empty oid then rest else oid ∷ rest

-- The manager for a configuration with these targets; `none` is the nil manager.
unfoldable pub manager_of : Config → List Bytes → Option Manager
unfolding on_set_of
manager_of c [] = none
manager_of c (t ∷ ts) =
    some
      (record { on_variation = c.on_variation; on_set_oids = on_set_of c.on_set_oids; queue = [] })

-- `NewManager` for a configuration without cron specs.
unfoldable pub new_manager : Config → Option (Option Manager)
unfolding normalize manager_of
new_manager cfg = elim (normalize cfg) [ none ↦ none | some c ↦ some (manager_of c c.targets) ]

-- A message that does not fit into the channel is dropped.
unfoldable pub enqueue : Message → Manager → Manager
enqueue message m =
    if ltb (length m.queue) queue_size then record m { queue = m.queue ++ message ∷ [] } else m

abbrev text_var : Bytes → Bytes → Pdu
text_var name text = record { name = name; type = octet_string; value = string text }

abbrev int_var : Bytes → ℕ → Pdu
int_var name n = record { name = name; type = integer; value = int n }

abbrev pub cron_message : Bytes → Message
cron_message spec = record {
  trap_oid = codes "1.3.6.1.4.1.55555.0.1";
  vars =
      text_var (codes ".1.3.6.1.4.1.55555.1.1.0") (codes "cron")
      ∷ text_var (codes ".1.3.6.1.4.1.55555.1.2.0") spec
      ∷ [];
}

unfoldable pub enqueue_cron_event : Bytes → Manager → Manager
unfolding enqueue
enqueue_cron_event spec m = enqueue (cron_message spec) m

abbrev pub variation_message : ℕ → ℕ → Bytes → Bytes → Message
variation_message device_id port oid detail = record {
  trap_oid = codes "1.3.6.1.4.1.55555.0.2";
  vars =
      text_var (codes ".1.3.6.1.4.1.55555.2.1.0") (trim_prefix oid (codes "."))
      ∷ text_var (codes ".1.3.6.1.4.1.55555.2.2.0") detail
      ∷ int_var (codes ".1.3.6.1.4.1.55555.2.3.0") device_id
      ∷ int_var (codes ".1.3.6.1.4.1.55555.2.4.0") port
      ∷ [];
}

unfoldable pub enqueue_variation_event : ℕ → ℕ → Bytes → Bytes → Manager → Manager
unfolding enqueue
enqueue_variation_event device_id port oid detail m =
    if m.on_variation then enqueue (variation_message device_id port oid detail) m else m

abbrev pub set_message : ℕ → ℕ → Bytes → Bytes → Bytes → Message
set_message device_id port oid value_type value_text = record {
  trap_oid = codes "1.3.6.1.4.1.55555.0.3";
  vars =
      text_var (codes ".1.3.6.1.4.1.55555.3.1.0") oid
      ∷ text_var (codes ".1.3.6.1.4.1.55555.3.2.0") value_type
      ∷ text_var (codes ".1.3.6.1.4.1.55555.3.3.0") value_text
      ∷ int_var (codes ".1.3.6.1.4.1.55555.3.4.0") device_id
      ∷ int_var (codes ".1.3.6.1.4.1.55555.3.5.0") port
      ∷ [];
}

abbrev pub is_listed : Bytes → List Bytes → Bool
is_listed oid [] = false
is_listed oid (o ∷ oids) = bytes_eq o oid || is_listed oid oids

-- `strings.TrimPrefix(strings.TrimSpace(oid), ".")`
unfoldable pub set_oid : Bytes → Bytes
unfolding trim_space trim_prefix
set_oid oid = trim_prefix (trim_space oid) (codes ".")

-- With no OIDs listed every SET is an event.
abbrev pub wants_set : Manager → Bytes → Bool
wants_set m oid = not (ltb 0 (length m.on_set_oids)) || is_listed oid m.on_set_oids

unfoldable pub enqueue_set_event : ℕ → ℕ → Bytes → Bytes → Bytes → Manager → Manager
unfolding enqueue set_oid
enqueue_set_event device_id port oid value_type value_text m =
    let o = set_oid oid in
    if wants_set m o then enqueue (set_message device_id port o value_type value_text) m else m
