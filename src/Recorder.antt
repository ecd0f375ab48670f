-- ===== src/Recorder.antt =====
-- internal/recorder/record.go: a walk of an agent into record entries. The agent and the connection to
-- it are a parameter over a state `W` of the world. The rate limit is left out.
pub mod Connect
pub mod Rounds
pub mod Walks
pub mod Noted
pub mod Agents
pub mod Repeats
pub mod Tests
use mathlib.Core.List.{map}
use go_snmpsim.Prelude.{
  ℕ, zero, suc, ◌*◌, ◌^◌, Bool, true, false, not, ◌&&◌, ◌||◌, Option, none, some, List, [], ◌∷◌,
  ◌++◌, Bytes, codes, is_empty, bytes_eq, has_prefix, trim_space, length, text_eq, Map, lookup, put,
  ◌==◌, ◌⊎◌, inl, inr, if◌then◌else◌,
}
use go_snmpsim.Oid.{int_less}
use go_snmpsim.Snmp.{Asn1Ber, end_of_mib_view, no_such_object, unnamed, Value}
use go_snmpsim.Strconv.Substrings.{trim_prefix}
use go_snmpsim.SnmprecFormat.{Entry, entry_from_pdu, sort_entries}
use go_snmpsim.Security.{
  AuthProtocol, no_auth, PrivProtocol, no_priv, MsgFlags, no_auth_no_priv, auth_no_priv, auth_priv,
}
use go_snmpsim.Traps.{parse_v3_auth, parse_v3_priv, is_no_auth, is_no_priv}

abbrev pub default_roots : List Bytes
default_roots = map codes (
    "1.3.6.1.2.1.1" ∷ "1.3.6.1.2.1.2.2" ∷ "1.3.6.1.2.1.31.1.1" ∷ "1.3.6.1.2.1.25" ∷ "1.3.6.1.2.1.99"
    ∷ "1.3.6.1.4.1" ∷ [])

-- A duration is the bit pattern of its nanoseconds.
pub record Options : Type 0 where
  pub target : Bytes
  pub port : ℕ
  pub timeout : ℕ
  pub retries : ℕ
  pub max_oids : ℕ
  pub roots : List Bytes
  pub exclude : List Bytes
  pub community : Bytes
  pub v3_user : Bytes
  pub v3_auth : Bytes
  pub v3_auth_key : Bytes
  pub v3_priv : Bytes
  pub v3_priv_key : Bytes

-- What `client.GetNext` returns for one OID: an error, a packet without variables or none, or the
-- first variable.
pub data Answer : Type 0 where
  failed no_variables : Answer
  variable : (name : Bytes) (ber : Asn1Ber) (value : Value) → Answer

abbrev pub Client : Type 0 → Type 0
Client W = Bytes → W → Answer × W

unfoldable pub is_in_subtree : Bytes → Bytes → Bool
is_in_subtree oid root = bytes_eq oid root || has_prefix oid (root ++ b'.' ∷ [])

-- The test of one exclusion.
unfoldable pub excludes : Bytes → Bytes → Bool
unfolding trim_space trim_prefix is_in_subtree
excludes oid text =
    let ex = trim_prefix (trim_space text) (codes ".") in
    if is_empty ex then false else is_in_subtree oid ex

unfoldable pub should_exclude : Bytes → List Bytes → Bool
unfolding excludes
should_exclude oid [] = false
should_exclude oid (ex ∷ exs) =
    let rest = should_exclude oid exs in if excludes oid ex then true else rest

-- `maxOIDs > 0 && len(entries) >= maxOIDs`
abbrev pub is_full : ℕ → Map Bytes Entry → Bool
is_full max_oids entries = int_less 0 max_oids && not (int_less (length entries) max_oids)

-- The types of a variable that end a walk; 0x81 is `NoSuchInstance`.
abbrev pub ends_walk : Asn1Ber → Bool
ends_walk end_of_mib_view = true
ends_walk no_such_object = true
ends_walk (unnamed n) = n == 0x81
ends_walk ber = false

-- How a walk ends: without an error, or with that of a request or of a value.
pub data WalkEnd : Type 0 where
  done : WalkEnd
  getnext_error convert_error : Bytes → WalkEnd

-- One round of a walk ends it, or goes on from an OID.
pub data Round : Type 0 where
  ended : WalkEnd → Round
  onward : (current : Bytes) (entries : Map Bytes Entry) → Round

abbrev pub converted : Bytes → Map Bytes Entry → Option Entry → Round
converted oid entries none = ended (convert_error oid)
converted oid entries (some entry) = onward oid (put oid entry entries)

abbrev is_known : Option Entry → Bool
is_known none = false
is_known (some entry) = true

module _ (root : Bytes) (exs : List Bytes) where
  -- The body of the loop of `walkRoot` behind the request.
  unfoldable pub take_answer : Bytes → Map Bytes Entry → Answer → Round
  take_answer current entries failed = ended (getnext_error current)
  take_answer current entries no_variables = ended done
  take_answer current entries (variable name ber value) =
      let oid = trim_prefix name (codes ".") in
      if ends_walk ber
      then ended done
      else if not (is_in_subtree oid root)
      then ended done
      else if should_exclude oid exs
      then onward oid entries
      else if is_known (lookup oid entries)
      then onward oid entries
      else converted oid entries (entry_from_pdu oid ber value)

module _ {W : Type 0} (client : Client W) (exs : List Bytes) (max_oids : ℕ) where
  -- The loop of `walkRoot`; `none` if the fuel runs out.
  unfoldable pub walk_loop :
      ℕ → Bytes → Bytes → Map Bytes Entry → W → Option (WalkEnd × Map Bytes Entry × W)
  unfolding take_answer
  walk_loop zero root current entries w = none
  walk_loop (suc fuel) root current entries w = elim (is_full max_oids entries) [
    | true ↦ some (done, entries, w)
    | false ↦
        let answered = client current w in
        elim (take_answer root exs current entries answered.0) [
          | ended end ↦ some (end, entries, answered.1)
          | onward oid more ↦ walk_loop fuel root oid more answered.1
        ]
  ]

  unfoldable pub walk_root :
      ℕ → Bytes → Map Bytes Entry → W → Option (WalkEnd × Map Bytes Entry × W)
  unfolding walk_loop
  walk_root fuel root entries w = walk_loop fuel root root entries w

  abbrev add_error : WalkEnd → List WalkEnd → List WalkEnd
  add_error done errors = errors
  add_error end errors = errors ++ end ∷ []

  -- The loop of `Record` over the roots, with the errors of the roots.
  unfoldable pub walk_roots :
      ℕ
      → List Bytes
      → Map Bytes Entry
      → List WalkEnd
      → W
      → Option (Map Bytes Entry × List WalkEnd × W)
  unfolding walk_root trim_prefix
  walk_roots fuel [] entries errors w = some (entries, errors, w)
  walk_roots fuel (root ∷ roots) entries errors w = elim (is_full max_oids entries) [
    | true ↦ some (entries, errors, w)
    | false ↦ elim (walk_root fuel (trim_prefix root (codes ".")) entries w) [
      | none ↦ none
      | some (end, more, v) ↦ walk_roots fuel roots more (add_error end errors) v
    ]
  ]

-- What `Record` returns once it is connected: an error, or the entries.
abbrev pub recorded : Map Bytes Entry → List WalkEnd → WalkEnd ⊎ List Entry
recorded [] (end ∷ ends) = inl end
recorded entries ends = inr (sort_entries (map (λ e. e.1) entries))

abbrev pub roots_of : List Bytes → List Bytes
roots_of [] = default_roots
roots_of (root ∷ roots) = root ∷ roots

-- `Record` behind the connection; `none` if the fuel runs out.
unfoldable pub record_entries :
    {W : Type 0} → Client W → ℕ → Options → W → Option ((WalkEnd ⊎ List Entry) × W)
unfolding walk_roots
record_entries client fuel opts w =
    elim (walk_roots client opts.exclude opts.max_oids fuel (roots_of opts.roots) [] [] w) [
      | none ↦ none
      | some (entries, ends, v) ↦ some (recorded entries ends, v)
    ]
