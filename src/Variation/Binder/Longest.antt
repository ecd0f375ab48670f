-- ===== src/Variation/Binder/Longest.antt =====
-- internal/variation/binder.go: which binding answers.
use go_snmpsim.Prelude.{
  ℕ, ◌≡◌, ◌↔◌, ◌⊎◌, refl, ap, ◌∙◌, true, Option, none, some, inl, inr, List, [], ◌∷◌, ◌++◌, Bytes,
  bytes_eq, bytes_eq_iff, has_prefix, arith, Bool-cases,
}
use go_snmpsim.Sort.Stable.{find_first, sort_stable_desc, best, find_first-sort_stable}
use go_snmpsim.Snmp.{Pdu}
use go_snmpsim.Variation.{Outcome, done, apply_chain}
use go_snmpsim.Variation.Failures.{Keeps, apply_chain-Keeps}
use go_snmpsim.Variation.Binder.{
  BindingSpec, PrefixChain, Binder, prefix_length, normalize_oid_prefix, matches_prefix,
  build_bindings, new_binder, apply_bindings, apply_binder,
}

has_prefix_iff : (s p : Bytes) → (has_prefix s p ≡ true) ↔ ((rest : Bytes) × (s ≡ p ++ rest))
has_prefix_iff s p = (sound s p, λ (rest, e). ap (λ t. has_prefix t p) e ∙ complete p rest)
  where
    sound : (s p : Bytes) → has_prefix s p ≡ true → (rest : Bytes) × (s ≡ p ++ rest)
    sound s [] h = (s, refl)
    sound [] (d ∷ p) h = absurd (ground arith)
    sound (c ∷ s) (d ∷ p) h =
        let (rest, e) = sound s p (ground arith) in
        let same : c ≡ d = ground arith in (rest, rw (same, e) refl)

    complete : (p rest : Bytes) → has_prefix (p ++ rest) p ≡ true
    complete [] rest = refl
    complete (d ∷ p) rest = ground (arith, complete p rest)

module _ {Rng : Type 0} (int63n : Rng → ℕ → ℕ × Rng) (now : ℕ) (pdu : Pdu) where
  -- What the chain of a binding, if there is one, makes of the answer.
  abbrev pub outcome_of : Option (PrefixChain Rng) → Outcome
  outcome_of none = done pdu
  outcome_of (some entry) = (apply_chain int63n now pdu entry.chain).1

  apply_bindings-find_first :
      (oid : Bytes) (entries : List (PrefixChain Rng))
      → (apply_bindings int63n now pdu oid entries).1
        ≡ outcome_of (find_first (λ entry. matches_prefix oid entry.prefix) entries)
  unfolding apply_bindings find_first
  apply_bindings-find_first oid [] = refl
  apply_bindings-find_first oid (entry ∷ entries) =
      elim (Bool-cases (matches_prefix oid entry.prefix)) [
        | inl e ↦ rw (e, apply_bindings, find_first)
        | inr e ↦ rw (e, apply_bindings, find_first) (apply_bindings-find_first oid entries)
      ]

-- A prefix matches an OID exactly if it is the OID or is followed by a dot in it.
pub matches_prefix_iff :
    (oid prefix : Bytes)
    → (matches_prefix oid prefix ≡ true)
      ↔ ((oid ≡ prefix) ⊎ ((rest : Bytes) × (oid ≡ (prefix ++ b'.' ∷ []) ++ rest)))
unfolding matches_prefix
matches_prefix_iff oid prefix =
    let (sound, complete) = has_prefix_iff oid (prefix ++ b'.' ∷ []) in
    (
      λ h. elim (Bool-cases (bytes_eq oid prefix)) [
        | inl e ↦ inl ((bytes_eq_iff oid prefix).0 e)
        | inr e ↦ inr (sound (ground arith))
      ],
      λ h. elim h [
        | inl e ↦ ground (arith, bytes_eq_iff oid prefix)
        | inr (rest, e) ↦ ground (arith, complete (rest, e))
      ],
    )

-- A binder made of bindings sends an answer through the chain of the longest prefix that matches its
-- name, the first in the configuration among those of one length, and leaves it as it is if none
-- matches.
pub apply_binder-best :
    {Rng : Type 0} (int63n : Rng → ℕ → ℕ × Rng) (time_parse_duration : Bytes → Option ℕ)
    (new_source : ℕ → Rng) (specs : List BindingSpec) (built : List (PrefixChain Rng)) (now : ℕ)
    (pdu : Pdu)
    → build_bindings time_parse_duration new_source specs ≡ some built
    → (apply_binder int63n now pdu (new_binder time_parse_duration new_source specs)).1
      ≡ outcome_of int63n now pdu (
          best prefix_length
            (λ entry. matches_prefix (normalize_oid_prefix pdu.name) entry.prefix)
            built)
unfolding apply_binder new_binder
apply_binder-best int63n time_parse_duration new_source specs built now pdu e =
    let oid = normalize_oid_prefix pdu.name in
    rw (e, new_binder)
      (apply_bindings-find_first int63n now pdu oid (sort_stable_desc prefix_length built)
        ∙ ap (outcome_of int63n now pdu)
            (find_first-sort_stable prefix_length (λ entry. matches_prefix oid entry.prefix) built))

apply_bindings-Keeps :
    {Rng : Type 0} (int63n : Rng → ℕ → ℕ × Rng) (now : ℕ) (pdu : Pdu) (oid : Bytes)
    (entries : List (PrefixChain Rng))
    → Keeps pdu (apply_bindings int63n now pdu oid entries).1
unfolding apply_bindings
apply_bindings-Keeps int63n now pdu oid [] = (refl, refl)
apply_bindings-Keeps int63n now pdu oid (entry ∷ entries) =
    elim (Bool-cases (matches_prefix oid entry.prefix)) [
      | inl e ↦ rw (e, apply_bindings) (apply_chain-Keeps int63n now entry.chain pdu)
      | inr e ↦ rw (e, apply_bindings) (apply_bindings-Keeps int63n now pdu oid entries)
    ]

-- A binder leaves the name and the type of an answer as they are.
pub apply_binder-Keeps :
    {Rng : Type 0} (int63n : Rng → ℕ → ℕ × Rng) (now : ℕ) (pdu : Pdu) (binder : Option (Binder Rng))
    → Keeps pdu (apply_binder int63n now pdu binder).1
unfolding apply_binder
apply_binder-Keeps int63n now pdu none = (refl, refl)
apply_binder-Keeps int63n now pdu (some b) =
    apply_bindings-Keeps int63n now pdu (normalize_oid_prefix pdu.name) b.bindings
