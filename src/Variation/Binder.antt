-- ===== src/Variation/Binder.antt =====
-- internal/variation/binder.go: which chain of variations an answer goes through.
pub mod Longest
use go_snmpsim.Prelude.{
  ℕ, ◌+◌, Bool, true, false, Option, none, some, List, [], ◌∷◌, ◌++◌, Bytes, codes, is_empty,
  bytes_eq, has_prefix, trim_space, to_lower, length, ◌==◌, if◌then◌else◌,
}
use go_snmpsim.Sort.Stable.{sort_stable_desc}
use go_snmpsim.Snmp.{Pdu}
use go_snmpsim.Variation.{
  Variation, drop_oid, timeout, Outcome, done, apply_chain, new_counter_monotonic,
  new_random_jitter, new_step, new_periodic_reset,
}

pub record VariationSpec : Type 0 where
  pub type : Bytes
  pub delta : ℕ
  pub max : ℕ
  pub seed : ℕ
  pub period : Bytes
  pub delay : Bytes

pub record BindingSpec : Type 0 where
  pub prefix : Bytes
  pub variations : List VariationSpec

pub record PrefixChain (Rng : Type 0) : Type 0 where
  pub prefix : Bytes
  pub chain : List (Variation Rng)

pub record Binder (Rng : Type 0) : Type 0 where
  pub bindings : List (PrefixChain Rng)

-- `strings.TrimPrefix(s, ".")`
abbrev trim_dot : Bytes → Bytes
trim_dot [] = []
trim_dot (c ∷ s) = if c == b'.' then s else c ∷ s

unfoldable pub normalize_oid_prefix : Bytes → Bytes
normalize_oid_prefix oid = trim_dot (trim_space oid)

unfoldable pub matches_prefix : Bytes → Bytes → Bool
matches_prefix oid prefix =
    if bytes_eq oid prefix then true else has_prefix oid (prefix ++ b'.' ∷ [])

abbrev pub prefix_length : {Rng : Type 0} → PrefixChain Rng → ℕ
prefix_length entry = length entry.prefix

-- `time.ParseDuration` and the making of a random source are the standard library's.
module _ {Rng : Type 0} (time_parse_duration : Bytes → Option ℕ) (new_source : ℕ → Rng) where
  unfoldable pub parse_duration : Bytes → Option ℕ
  parse_duration value = if is_empty (trim_space value) then none else time_parse_duration value

  -- The variation of a spec whose duration, if one is needed, is read.
  abbrev with_duration : Option ℕ → (ℕ → Variation Rng) → Option (Variation Rng)
  with_duration none make = none
  with_duration (some d) make = some (make d)

  unfoldable pub build_variation : VariationSpec → Option (Variation Rng)
  unfolding to_lower parse_duration
  build_variation spec =
      let type = to_lower (trim_space spec.type) in
      if bytes_eq type (codes "countermonotonic")
      then some (new_counter_monotonic spec.delta)
      else if bytes_eq type (codes "randomjitter")
      then some (new_random_jitter new_source spec.max spec.seed)
      else if bytes_eq type (codes "step")
      then with_duration (parse_duration spec.period) (λ d. new_step d spec.delta)
      else if bytes_eq type (codes "periodicreset")
      then with_duration (parse_duration spec.period) new_periodic_reset
      else if bytes_eq type (codes "dropoid")
      then some drop_oid
      else if bytes_eq type (codes "timeout")
      then with_duration (parse_duration spec.delay) timeout
      else none

  -- The inner loop of `NewBinder`; `none` is the error.
  unfoldable pub build_chain : List VariationSpec → Option (List (Variation Rng))
  unfolding build_variation
  build_chain [] = some []
  build_chain (vs ∷ rest) = elim (build_variation vs) [
    | none ↦ none
    | some v ↦ elim (build_chain rest) [ none ↦ none | some chain ↦ some (v ∷ chain) ]
  ]

  -- The outer loop of `NewBinder`.
  unfoldable pub build_bindings : List BindingSpec → Option (List (PrefixChain Rng))
  unfolding build_chain normalize_oid_prefix
  build_bindings [] = some []
  build_bindings (spec ∷ specs) =
      let prefix = normalize_oid_prefix spec.prefix in
      elim (is_empty prefix) [
        | true ↦ none
        | false ↦ elim (build_chain spec.variations) [
          | none ↦ none
          | some chain ↦ elim (build_bindings specs) [
            | none ↦ none
            | some out ↦ some (record { prefix = prefix; chain = chain } ∷ out)
          ]
        ]
      ]

  unfoldable pub new_binder : List BindingSpec → Option (Binder Rng)
  unfolding build_bindings
  new_binder specs = elim (build_bindings specs) [
    | none ↦ none
    | some out ↦ some (record { bindings = sort_stable_desc prefix_length out })
  ]

module _ {Rng : Type 0} (int63n : Rng → ℕ → ℕ × Rng) where
  -- The loop of `Binder.Apply`: the first entry that matches answers.
  unfoldable pub apply_bindings :
      ℕ → Pdu → Bytes → List (PrefixChain Rng) → List (PrefixChain Rng) × Outcome
  unfolding matches_prefix
  apply_bindings now pdu oid [] = ([], done pdu)
  apply_bindings now pdu oid (entry ∷ entries) =
      let applied = apply_chain int63n now pdu entry.chain in
      let rest = apply_bindings now pdu oid entries in
      if matches_prefix oid entry.prefix
      then (record entry { chain = applied.0 } ∷ entries, applied.1)
      else (entry ∷ rest.0, rest.1)

  -- A nil binder leaves the answer as it is.
  unfoldable pub apply_binder : ℕ → Pdu → Option (Binder Rng) → Option (Binder Rng) × Outcome
  unfolding apply_bindings normalize_oid_prefix
  apply_binder now pdu none = (none, done pdu)
  apply_binder now pdu (some b) =
      let r = apply_bindings now pdu (normalize_oid_prefix pdu.name) b.bindings in
      (some (record { bindings = r.0 }), r.1)
