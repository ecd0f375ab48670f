-- ===== src/Variation/Timed.antt =====
-- internal/variation/variation.go: a step over a sequence of requests.
use go_snmpsim.Prelude.{
  ℕ, ◌+◌, ◌-◌, ◌*◌, ◌/◌, ◌%◌, ◌^◌, ◌≤◌, ◌<◌, ◌≡◌, refl, ap, false, some, Option-cases, inl, inr,
  List, [], ◌∷◌, Bytes, bytes_eq_iff, arith, ◌==◌, Map, text_eq, lookup, put, lookup-put,
  lookup-put_self, lookup-nil,
}
use go_snmpsim.Snmp.{Pdu}
use go_snmpsim.Variation.{
  Variation, step, done, to_int64, apply_step, step_start, apply, int_quotient, time_sub, negative,
  with_value, value_at, new_step,
}
use go_snmpsim.Variation.Monotonic.{Request, after}

-- A step that has seen a number `b` for the name at time `t`.
record Started {Rng : Type 0} (period delta : ℕ) (name : Bytes) (b t : ℕ) (v : Variation Rng)
    : Type 0 where
  base : Map Bytes ℕ
  start_at : Map Bytes ℕ
  is_step : v ≡ step period delta base start_at
  stored : lookup name base ≡ some b
  started : lookup name start_at ≡ some t

module _ {Rng : Type 0} (int63n : Rng → ℕ → ℕ × Rng) (period delta : ℕ) (name : Bytes)
    (b t : ℕ) where
  -- The maps keep what they have for the name.
  step_start-keeps :
      (base start_at : Map Bytes ℕ) (first now : ℕ) (other : Bytes)
      → lookup name base ≡ some b
      → lookup name start_at ≡ some t
      → (lookup name (step_start base start_at first now other).0 ≡ some b)
        × (lookup name (step_start base start_at first now other).1 ≡ some t)
  unfolding step_start
  step_start-keeps base start_at first now other h k = elim (Option-cases (lookup other base)) [
    | inl e ↦
        rw (e, step_start)
          (
            ground (
              arith,
              lookup-put other name first base,
              bytes_eq_iff other name,
              ap (λ n. lookup n base) {x = other} {y = name},
            ),
            ground (
              arith,
              lookup-put other name now start_at,
              bytes_eq_iff other name,
              ap (λ n. lookup n base) {x = other} {y = name},
            ),
          )
    | inr (c, e) ↦ rw (e, step_start) (h, k)
  ]

  apply-Started :
      (now : ℕ) (pdu : Pdu) (v : Variation Rng)
      → Started period delta name b t v
      → Started period delta name b t (apply int63n now pdu v).0
  unfolding apply apply_step
  apply-Started now pdu v s = rw s.is_step (elim (Option-cases (to_int64 pdu.value)) [
    | inl e ↦
        rw (e, apply)
          (record {
            base = s.base;
            start_at = s.start_at;
            is_step = refl;
            stored = s.stored;
            started = s.started;
          })
    | inr (n, e) ↦
        let kept = step_start-keeps s.base s.start_at n now pdu.name s.stored s.started in
        rw (e, apply)
          (record { base = _; start_at = _; is_step = refl; stored = kept.0; started = kept.1 })
  ])

  after-Started :
      (rs : List Request) (v : Variation Rng)
      → Started period delta name b t v
      → Started period delta name b t (after int63n rs v)
  unfolding after
  after-Started [] v s = s
  after-Started ((now, pdu) ∷ rs) v s = after-Started rs _ (apply-Started now pdu v s)

  step_start-known :
      (base start_at : Map Bytes ℕ) (first now : ℕ)
      → lookup name base ≡ some b
      → step_start base start_at first now name ≡ (base, start_at)
  unfolding step_start
  step_start-known base start_at first now h = rw (h, step_start)

  -- What a started step shows.
  Started-shows :
      (now n : ℕ) (pdu : Pdu) (v : Variation Rng)
      → pdu.name ≡ name
      → to_int64 pdu.value ≡ some n
      → (period == 0) ≡ false
      → Started period delta name b t v
      → (apply int63n now pdu v).1
        ≡ done (with_value pdu ((b + int_quotient (time_sub now t) period * delta) % 2 ^ 64))
  unfolding apply apply_step
  Started-shows now n pdu v same e p s =
      let since : value_at name s.start_at ≡ t = rw (s.started, value_at) in
      rw (
        s.is_step,
        apply,
        e,
        same,
        step_start-known s.base s.start_at n now s.stored,
        s.stored,
        since,
        p,
      )

  step_start-new : step_start [] [] b t name ≡ (put name b [], put name t [])
  unfolding step_start
  step_start-new = rw (lookup-nil {V = ℕ} name, step_start)

  -- The first number for the name starts a new step.
  new_step-Started :
      (p0 : Pdu)
      → p0.name ≡ name
      → to_int64 p0.value ≡ some b
      → Started period delta name b t (apply int63n t p0 (step period delta [] [])).0
  unfolding apply apply_step
  new_step-Started p0 same e =
      rw (e, same, apply, step_start-new)
        (record {
          base = put name b [];
          start_at = put name t [];
          is_step = refl;
          stored = lookup-put_self name b [];
          started = lookup-put_self name t [];
        })

  whole_periods :
      (now : ℕ)
      → t ≤ now
      → now - t < 2 ^ 63
      → 0 < period
      → period < 2 ^ 63
      → int_quotient (time_sub now t) period ≡ (now - t) / period
  unfolding int_quotient time_sub
  whole_periods now h k p q = ground arith

-- A step with a period, whose first number for a name is `b` at time `t`, shows for a numeric answer
-- of that name `b` and its delta for every whole period since `t`, in an int64, whatever it was asked
-- in between.
pub step-after :
    {Rng : Type 0} (int63n : Rng → ℕ → ℕ × Rng) (period delta t now b n : ℕ) (p0 pdu : Pdu)
    (rs : List Request)
    → 0 < period
    → period < 2 ^ 63
    → t ≤ now
    → now - t < 2 ^ 63
    → p0.name ≡ pdu.name
    → to_int64 p0.value ≡ some b
    → to_int64 pdu.value ≡ some n
    → (apply int63n now pdu (after int63n ((t, p0) ∷ rs) (new_step period delta))).1
      ≡ done (with_value pdu ((b + (now - t) / period * delta) % 2 ^ 64))
unfolding new_step after
step-after int63n period delta t now b n p0 pdu rs p q h k same e f =
    let positive : (period == 0) ≡ false = ground arith in
    let small : negative period ≡ false = ground arith in
    rw (positive, small)
      (rw (whole_periods int63n period delta pdu.name b t now h k p q) at (
        Started-shows int63n period delta pdu.name b t now n pdu _ refl f positive (
          after-Started int63n period delta pdu.name b t rs _
            (new_step-Started int63n period delta pdu.name b t p0 same e))))
