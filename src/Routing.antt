-- ===== src/Routing.antt =====
-- internal/routing/routing.go: which dataset answers a request.
pub mod Select
pub mod Paths
pub mod Tests
use go_snmpsim.Prelude.{
  ℕ, zero, suc, ◌+◌, Bool, true, false, not, ◌&&◌, ◌||◌, Option, none, some, List, [], ◌∷◌, ◌++◌,
  Bytes, is_empty, bytes_eq, trim_space, ◌==◌, if◌then◌else◌,
}
use go_snmpsim.Sort.Stable.{find_first, sort_stable_desc}

pub record Matchers : Type 0 where
  pub community : Bytes
  pub context : Bytes
  pub engine_id : Bytes
  pub src_ip : Bytes
  pub dst_port : ℕ

pub record Action : Type 0 where
  pub dataset_path : Bytes

pub record Rule : Type 0 where
  pub match : Matchers
  pub action : Action

pub record RequestKey : Type 0 where
  pub community : Bytes
  pub context : Bytes
  pub engine_id : Bytes
  pub src_ip : Bytes
  pub dst_port : ℕ

pub record Router : Type 0 where
  pub routes : List Rule

-- `m != "" && m != key`
abbrev pub differs : Bytes → Bytes → Bool
differs m key = not (is_empty m) && not (bytes_eq m key)

unfoldable pub rule_matches : Matchers → RequestKey → Bool
rule_matches m key =
    if differs m.community key.community
    then false
    else if differs m.context key.context
    then false
    else if differs m.engine_id key.engine_id
    then false
    else if differs m.src_ip key.src_ip
    then false
    else if not (m.dst_port == 0) && not (m.dst_port == key.dst_port)
    then false
    else true

unfoldable pub rule_priority : Matchers → ℕ
rule_priority m =
    if not (is_empty m.engine_id) && not (is_empty m.context)
    then 5
    else if not (is_empty m.context)
    then 4
    else if not (is_empty m.community)
    then 3
    else if not (is_empty m.src_ip) || not (m.dst_port == 0)
    then 2
    else 1

-- The first loop of `NewRouter`; `none` is the error.
validate : List Rule → Option (List Rule)
validate [] = some []
validate (rule ∷ rules) =
    if is_empty (trim_space rule.action.dataset_path)
    then none
    else (elim (validate rules) [ none ↦ none | some validated ↦ some (rule ∷ validated) ])

abbrev pub priority : Rule → ℕ
priority rule = rule_priority rule.match

unfoldable pub new_router : List Rule → Option Router
unfolding validate
new_router rules = elim (validate rules) [
  | none ↦ none
  | some validated ↦ some (record { routes = sort_stable_desc priority validated })
]

-- A nil router selects nothing.
unfoldable pub select : Option Router → RequestKey → Bytes
unfolding find_first
select none key = []
select (some r) key = elim (find_first (λ rule. rule_matches rule.match key) r.routes) [
  | none ↦ []
  | some rule ↦ rule.action.dataset_path
]

abbrev pub elem : Bytes → List Bytes → Bool
elem p [] = false
elem p (q ∷ qs) = bytes_eq q p || elem p qs

-- The loop of `DatasetPaths`; `seen` has the paths of `out`.
dataset_paths_loop : List Rule → List Bytes → List Bytes
dataset_paths_loop [] out = out
dataset_paths_loop (rule ∷ rules) out =
    let path = trim_space rule.action.dataset_path in
    let skip = dataset_paths_loop rules out in
    let add = dataset_paths_loop rules (out ++ path ∷ []) in
    if is_empty path then skip else if elem path out then skip else add

unfoldable pub dataset_paths : Option Router → List Bytes
unfolding dataset_paths_loop
dataset_paths none = []
dataset_paths (some r) = dataset_paths_loop r.routes []
