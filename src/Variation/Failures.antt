-- ===== src/Variation/Failures.antt =====
-- internal/variation/variation.go: when a variation fails, and what it leaves of the answer.
use go_snmpsim.Prelude.{
  ℕ, ◌+◌, ◌*◌, ◌%◌, ◌^◌, ◌<◌, ◌≡◌, refl, false, Option, none, some, Option-cases, inl, inr, ◌⊎◌,
  List, [], ◌∷◌, All, arith, Bool-cases, ◌==◌, text_eq,
}
use go_snmpsim.Snmp.{Pdu}
use go_snmpsim.Variation.{
  Variation, counter_monotonic, random_jitter, step, periodic_reset, drop_oid, timeout, Failure,
  err_drop_oid, err_timeout, Outcome, done, failed, panicked, to_int64, negative, apply_counter,
  apply_jitter, apply_step, apply_reset, apply, apply_chain,
}

-- The answer of an outcome has the name and the type of the one that went in.
abbrev pub Keeps : Pdu → Outcome → Type 0
Keeps pdu (done q) = (q.name ≡ pdu.name) × (q.type ≡ pdu.type)
Keeps pdu (failed e q) = (q.name ≡ pdu.name) × (q.type ≡ pdu.type)
Keeps pdu panicked = Unit

module _ {Rng : Type 0} where
  -- The error that a kind of variation returns.
  abbrev pub error_of : Variation Rng → Option Failure
  error_of drop_oid = some err_drop_oid
  error_of (timeout delay) = some err_timeout
  error_of v = none

  -- The error of the first variation of a chain that returns one.
  pub first_error : List (Variation Rng) → Option Failure
  first_error [] = none
  first_error (v ∷ vs) =
      let rest = first_error vs in elim (error_of v) [ none ↦ rest | some e ↦ some e ]

  -- A jitter whose bound does not overflow, and a step with a period.
  abbrev pub IsSafe : Variation Rng → Type 0
  IsSafe (random_jitter max rng) = max < 2 ^ 62
  IsSafe (step period delta base start_at) = (period == 0) ≡ false
  IsSafe v = Unit

-- An outcome without its answer: no result, a success, or an error.
abbrev pub verdict : Outcome → Option (Option Failure)
verdict (done q) = some none
verdict (failed e q) = some (some e)
verdict panicked = none

Outcome-cases :
    (o : Outcome)
    → ((q : Pdu) × (o ≡ done q)) ⊎ (((e : Failure) × (q : Pdu) × (o ≡ failed e q)) ⊎ (o ≡ panicked))
Outcome-cases (done q) = inl (q, refl)
Outcome-cases (failed e q) = inr (inl (e, q, refl))
Outcome-cases panicked = inr (inr refl)

module _ {Rng : Type 0} (int63n : Rng → ℕ → ℕ × Rng) (now : ℕ) where
  apply_jitter-Keeps :
      (max : ℕ) (rng : Rng) (base : ℕ) (pdu : Pdu)
      → Keeps pdu (apply_jitter int63n max rng base pdu).1
  unfolding apply_jitter
  apply_jitter-Keeps max rng base pdu = elim (Bool-cases (negative ((max * 2 + 1) % 2 ^ 64))) [
    | inl e ↦ rw e tt
    | inr e ↦ rw e (refl, refl)
  ]

  apply-Keeps : (pdu : Pdu) (v : Variation Rng) → Keeps pdu (apply int63n now pdu v).1
  unfolding apply apply_counter apply_step apply_reset
  apply-Keeps pdu (counter_monotonic delta current) = elim (Option-cases (to_int64 pdu.value)) [
    | inl e ↦ rw (e, apply) (refl, refl)
    | inr (n, e) ↦ rw (e, apply) (refl, refl)
  ]
  apply-Keeps pdu (random_jitter max rng) = elim (Option-cases (to_int64 pdu.value)) [
    | inl e ↦ elim (Bool-cases (max == 0)) [
      | inl z ↦ rw (z, apply) (refl, refl)
      | inr z ↦ rw (z, e, apply) (refl, refl)
    ]
    | inr (n, e) ↦ elim (Bool-cases (max == 0)) [
      | inl z ↦ rw (z, apply) (refl, refl)
      | inr z ↦ rw (z, e, apply) (apply_jitter-Keeps max rng n pdu)
    ]
  ]
  apply-Keeps pdu (step period delta base start_at) = elim (Option-cases (to_int64 pdu.value)) [
    | inl e ↦ rw (e, apply) (refl, refl)
    | inr (n, e) ↦ elim (Bool-cases (period == 0)) [
      | inl z ↦ rw (e, apply, apply_step, z) tt
      | inr z ↦ rw (e, apply, apply_step, z) (refl, refl)
    ]
  ]
  apply-Keeps pdu (periodic_reset period base window_at current) =
      elim (Option-cases (to_int64 pdu.value)) [
        | inl e ↦ rw (e, apply) (refl, refl)
        | inr (n, e) ↦ rw (e, apply) (refl, refl)
      ]
  apply-Keeps pdu drop_oid = (refl, refl)
  apply-Keeps pdu (timeout delay) = (refl, refl)

  Keeps-trans :
      (p q : Pdu) (o : Outcome) → (q.name ≡ p.name) × (q.type ≡ p.type) → Keeps q o → Keeps p o
  Keeps-trans p q (done r) h k = (rw (← h.0) k.0, rw (← h.1) k.1)
  Keeps-trans p q (failed e r) h k = (rw (← h.0) k.0, rw (← h.1) k.1)
  Keeps-trans p q panicked h k = tt

  -- Whatever a chain does to an answer, it leaves its name and its type as they are, also when it
  -- returns an error.
  pub apply_chain-Keeps :
      (vs : List (Variation Rng)) (pdu : Pdu) → Keeps pdu (apply_chain int63n now pdu vs).1
  unfolding apply_chain
  apply_chain-Keeps [] pdu = (refl, refl)
  apply_chain-Keeps (v ∷ vs) pdu = elim (Outcome-cases (apply int63n now pdu v).1) [
    | inl (q, e) ↦
        rw (e, apply_chain)
          (Keeps-trans pdu q _ (rw e at (apply-Keeps pdu v)) (apply_chain-Keeps vs q))
    | inr (inl (f, q, e)) ↦ rw (e, apply_chain) (rw e at (apply-Keeps pdu v))
    | inr (inr e) ↦ rw (e, apply_chain) tt
  ]

  jitter_fits : (max : ℕ) → max < 2 ^ 62 → negative ((max * 2 + 1) % 2 ^ 64) ≡ false
  jitter_fits max h = ground arith

  apply-verdict :
      (pdu : Pdu) (v : Variation Rng)
      → IsSafe v
      → verdict (apply int63n now pdu v).1 ≡ some (error_of v)
  unfolding apply apply_counter apply_jitter apply_step apply_reset
  apply-verdict pdu (counter_monotonic delta current) h = elim (Option-cases (to_int64 pdu.value)) [
    | inl e ↦ rw (e, apply)
    | inr (n, e) ↦ rw (e, apply)
  ]
  apply-verdict pdu (random_jitter max rng) h = elim (Option-cases (to_int64 pdu.value)) [
    | inl e ↦ ground (arith, e)
    | inr (n, e) ↦ ground (arith, e, jitter_fits max h)
  ]
  apply-verdict pdu (step period delta base start_at) h = elim (Option-cases (to_int64 pdu.value)) [
    | inl e ↦ rw (e, apply)
    | inr (n, e) ↦ rw (e, apply, apply_step, h)
  ]
  apply-verdict pdu (periodic_reset period base window_at current) h =
      elim (Option-cases (to_int64 pdu.value)) [
        | inl e ↦ rw (e, apply)
        | inr (n, e) ↦ rw (e, apply)
      ]
  apply-verdict pdu drop_oid h = refl
  apply-verdict pdu (timeout delay) h = refl

  -- A chain of variations whose jitters have a bound below 2 ^ 62 and whose steps have a period never
  -- panics: it returns the error of its first variation that drops an OID or times out, and succeeds
  -- if there is none.
  pub apply_chain-verdict :
      (vs : List (Variation Rng)) (pdu : Pdu)
      → All IsSafe vs
      → verdict (apply_chain int63n now pdu vs).1 ≡ some (first_error vs)
  unfolding apply_chain first_error
  apply_chain-verdict [] pdu h = refl
  apply_chain-verdict (v ∷ vs) pdu h =
      let one = apply-verdict pdu v h.0 in
      elim (Outcome-cases (apply int63n now pdu v).1) [
        | inl (q, e) ↦
            rw (e, apply_chain) (ground (arith, rw e at one, apply_chain-verdict vs q h.1))
        | inr (inl (f, q, e)) ↦ rw (e, apply_chain) (ground (arith, rw e at one))
        | inr (inr e) ↦ absurd (ground (arith, rw e at one))
      ]
