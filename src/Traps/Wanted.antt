-- ===== src/Traps/Wanted.antt =====
-- internal/traps/traps.go: which notifications the events of a manager ask for, described from its
-- configuration and the layout of the notifications.
use go_snmpsim.Prelude.{
  ℕ, ◌+◌, ◌≡◌, refl, Bool, true, false, not, ◌&&◌, ◌||◌, List, [], ◌∷◌, ◌++◌, Bytes, codes,
  is_empty, bytes_eq, length, ltb, Bool-cases, inl, inr, arith, if◌then◌else◌,
}
use go_snmpsim.Snmp.{integer, octet_string, Value, string, int, Pdu}
use go_snmpsim.Strconv.Substrings.{trim_prefix}
use go_snmpsim.Traps.{
  Config, Message, Manager, on_set_of, set_oid, is_listed, wants_set, enqueue_cron_event,
  enqueue_variation_event, enqueue_set_event,
}

pub data Event : Type 0 where
  cron : Bytes → Event
  variation : (device_id port : ℕ) (oid detail : Bytes) → Event
  set : (device_id port : ℕ) (oid value_type value_text : Bytes) → Event

-- A manager after an event, and after several.
abbrev pub happen : Event → Manager → Manager
happen (cron spec) m = enqueue_cron_event spec m
happen (variation device_id port oid detail) m = enqueue_variation_event device_id port oid detail m
happen (set device_id port oid value_type value_text) m =
    enqueue_set_event device_id port oid value_type value_text m

abbrev pub happened : List Event → Manager → Manager
happened [] m = m
happened (e ∷ events) m = happened events (happen e m)

abbrev digit : ℕ → Bytes
digit n = (b'0' + n) ∷ []

-- The variables of the notification `kind`: their numbers count from `i`.
abbrev variables : ℕ → ℕ → List Value → List Pdu
variables kind i [] = []
variables kind i (v ∷ values) =
    record {
      name = codes ".1.3.6.1.4.1.55555." ++ digit kind ++ codes "." ++ digit i ++ codes ".0";
      type = elim v [ int n ↦ integer | _ ↦ octet_string ];
      value = v;
    }
    ∷ variables kind (i + 1) values

abbrev notification : ℕ → List Value → Message
notification kind values = record {
  trap_oid = codes "1.3.6.1.4.1.55555.0." ++ digit kind;
  vars = variables kind 1 values;
}

-- An entry of the configured OIDs without white space around it and a dot in front is the OID, or all
-- entries are empty then.
abbrev pub names : Bytes → List Bytes → Bool
names oid [] = false
names oid (o ∷ oids) = not (is_empty (set_oid o)) && bytes_eq (set_oid o) oid || names oid oids

abbrev pub all_empty : List Bytes → Bool
all_empty [] = true
all_empty (o ∷ oids) = is_empty (set_oid o) && all_empty oids

-- The notifications that an event asks for.
abbrev pub wanted : Config → Event → List Message
wanted cfg (cron spec) = notification 1 (string (codes "cron") ∷ string spec ∷ []) ∷ []
wanted cfg (variation device_id port oid detail) =
    if cfg.on_variation
    then notification 2
        (string (trim_prefix oid (codes ".")) ∷ string detail ∷ int device_id ∷ int port ∷ [])
      ∷ []
    else []
wanted cfg (set device_id port oid value_type value_text) =
    if all_empty cfg.on_set_oids || names (set_oid oid) cfg.on_set_oids
    then notification 3 (
        string (set_oid oid)
        ∷ string value_type
        ∷ string value_text
        ∷ int device_id
        ∷ int port
        ∷ [])
      ∷ []
    else []

abbrev pub all_wanted : Config → List Event → List Message
all_wanted cfg [] = []
all_wanted cfg (e ∷ events) = wanted cfg e ++ all_wanted cfg events

is_listed-on_set_of :
    (oid : Bytes) (oids : List Bytes) → is_listed oid (on_set_of oids) ≡ names oid oids
unfolding on_set_of set_oid
is_listed-on_set_of oid [] = refl
is_listed-on_set_of oid (o ∷ oids) =
    let ih = is_listed-on_set_of oid oids in
    elim (Bool-cases (is_empty (set_oid o))) [ inl e ↦ rw e ih | inr e ↦ rw (e, ih) refl ]

none_listed : (oids : List Bytes) → not (ltb 0 (length (on_set_of oids))) ≡ all_empty oids
unfolding on_set_of set_oid
none_listed [] = refl
none_listed (o ∷ oids) =
    let ih = none_listed oids in
    elim (Bool-cases (is_empty (set_oid o))) [ inl e ↦ rw e ih | inr e ↦ rw e (ground arith) ]

-- The manager decides about an OID as the configuration says.
pub wants_set-names :
    (cfg : Config) (m : Manager) (oid : Bytes)
    → m.on_set_oids ≡ on_set_of cfg.on_set_oids
    → wants_set m oid ≡ (all_empty cfg.on_set_oids || names oid cfg.on_set_oids)
wants_set-names cfg m oid e =
    rw (e, is_listed-on_set_of oid cfg.on_set_oids, none_listed cfg.on_set_oids) refl
