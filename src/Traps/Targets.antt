-- ===== src/Traps/Targets.antt =====
-- internal/traps/traps.go: the targets of traps. `net.SplitHostPort` and `net.JoinHostPort` follow the
-- standard library; an error is `none`.
pub mod Stable
use go_snmpsim.Prelude.{
  ℕ, ◌+◌, ◌<◌, ◌≡◌, Bool, true, false, not, ◌&&◌, ◌||◌, Option, none, some, List, [], ◌∷◌, ◌++◌,
  Bytes, is_empty, trim_space, ltb, ◌==◌, if◌then◌else◌,
}
use go_snmpsim.Oid.{int_less}
use go_snmpsim.Strconv.{atoi, cut, cut_last, contains_byte}

-- A host in brackets: what stands between the first `[` and the first `]`, which has to end the text.
pub bracketed : Bytes → Option Bytes
unfolding cut
bracketed rest = elim (cut b']' rest).1 [
  | none ↦ none
  | some behind ↦ if is_empty behind then some (cut b']' rest).0 else none
]

pub host_of : Bytes → Option Bytes
unfolding bracketed contains_byte
host_of [] = some []
host_of (c ∷ s) =
    if c == b'[' then bracketed s else if contains_byte b':' (c ∷ s) then none else some (c ∷ s)

abbrev pub no_brackets : Bytes → Bool
no_brackets s = not (contains_byte b'[' s || contains_byte b']' s)

-- No bracket may stand outside the pair around the host; inside it there is no `]`.
unfoldable pub split_host_port : Bytes → Option (Bytes × Bytes)
unfolding cut_last host_of contains_byte
split_host_port hostport = elim (cut_last b':' hostport) [
  | none ↦ none
  | some (before, port) ↦ elim (host_of before) [
    | none ↦ none
    | some host ↦ if no_brackets host && no_brackets port then some (host, port) else none
  ]
]

unfoldable pub join_host_port : Bytes → Bytes → Bytes
unfolding contains_byte
join_host_port host port =
    if contains_byte b':' host then b'[' ∷ (host ++ b']' ∷ b':' ∷ port) else host ++ b':' ∷ port

abbrev pub is_number : Option ℕ → Bool
is_number none = false
is_number (some n) = true

abbrev pub checked_target : Option (Bytes × Bytes) → Option Bytes
checked_target none = none
checked_target (some (host, port)) =
    if is_empty host || is_empty port
    then none
    else if is_number (atoi port)
    then some (join_host_port host port)
    else none

-- One round of the loop of `Normalize`.
unfoldable pub normalize_target : Bytes → Option Bytes
unfolding split_host_port join_host_port atoi
normalize_target t = checked_target (split_host_port t)

abbrev pub cons_target : Option Bytes → Option (List Bytes) → Option (List Bytes)
cons_target none rest = none
cons_target (some t) none = none
cons_target (some t) (some ts) = some (t ∷ ts)

unfoldable pub normalize_targets : List Bytes → Option (List Bytes)
unfolding normalize_target
normalize_targets [] = some []
normalize_targets (t ∷ ts) = cons_target (normalize_target t) (normalize_targets ts)

abbrev port_in_range : Bytes → Option ℕ → Option (Bytes × ℕ)
port_in_range host none = none
port_in_range host (some n) =
    if not (int_less 0 n) || int_less 65535 n then none else some (host, n)

-- `parseTarget`
unfoldable pub parse_target : Bytes → Option (Bytes × ℕ)
unfolding split_host_port trim_space atoi
parse_target target = elim (split_host_port (trim_space target)) [
  | none ↦ none
  | some (host, port) ↦ port_in_range host (atoi port)
]
