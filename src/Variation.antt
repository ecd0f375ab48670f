-- ===== src/Variation.antt =====
-- internal/variation/variation.go: how the value of an answer varies. An int64 is its bit pattern, a
-- number below 2 ^ 64, and arithmetic on it wraps. A time is the number of nanoseconds since Go's zero
-- time, a duration an int64 of nanoseconds. The object's lock is left out: each call is one step. The
-- state of a random source is a parameter, and so is the number that it draws.
mod Values
unfoldable pub use Values.*
pub mod Binder
pub mod Failures
pub mod Monotonic
pub mod Timed
pub mod Tests
use go_snmpsim.Prelude.{
  ℕ, ◌+◌, ◌-◌, ◌*◌, ◌/◌, ◌%◌, ◌^◌, Bool, true, false, not, Option, none, some, List, [], ◌∷◌, Bytes,
  Map, text_eq, lookup, put, ltb, leb, ◌==◌, if◌then◌else◌,
}
use go_snmpsim.Snmp.{
  Asn1Ber, counter32, gauge32, timeticks, uinteger32, counter64, Value, nil, string, int, int32,
  int64, uint, uint32, uint64, Pdu,
}

pub data Variation (Rng : Type 0) : Type 0 where
  counter_monotonic : (delta : ℕ) (current : Map Bytes ℕ) → Variation Rng
  random_jitter : (max : ℕ) (rng : Rng) → Variation Rng
  step : (period delta : ℕ) (base start_at : Map Bytes ℕ) → Variation Rng
  periodic_reset : (period : ℕ) (base window_at current : Map Bytes ℕ) → Variation Rng
  drop_oid : Variation Rng
  timeout : (delay : ℕ) → Variation Rng

pub data Failure : Type 0 where
  err_drop_oid err_timeout : Failure

-- What a call of `Apply` returns; `panicked` is a run-time error.
pub data Outcome : Type 0 where
  done : Pdu → Outcome
  failed : Failure → Pdu → Outcome
  panicked : Outcome

-- `m[k]` of a map of numbers or of times, whose zero value is 0.
abbrev pub value_at : Bytes → Map Bytes ℕ → ℕ
value_at k m = elim (lookup k m) [ none ↦ 0 | some n ↦ n ]

abbrev pub with_value : Pdu → ℕ → Pdu
with_value pdu n = record pdu { value = cast_by_type pdu.type n }

abbrev pub or_else_base : ℕ → Option ℕ → ℕ
or_else_base base none = base
or_else_base base (some n) = n

-- The values of a step at a name: what was stored, or the first value and the time of it.
unfoldable pub step_start : Map Bytes ℕ → Map Bytes ℕ → ℕ → ℕ → Bytes → Map Bytes ℕ × Map Bytes ℕ
step_start base start_at first now name = elim (lookup name base) [
  | none ↦ (put name first base, put name now start_at)
  | some b ↦ (base, start_at)
]

-- `n >= m` of int64.
abbrev pub int_at_least : ℕ → ℕ → Bool
int_at_least n m = leb ((m + 2 ^ 63) % 2 ^ 64) ((n + 2 ^ 63) % 2 ^ 64)

-- The maps `base`, `windowAt` and `current` behind the first `if`.
unfoldable pub reset_start :
    Map Bytes ℕ
    → Map Bytes ℕ
    → Map Bytes ℕ
    → ℕ
    → ℕ
    → Bytes
    → Map Bytes ℕ × Map Bytes ℕ × Map Bytes ℕ
reset_start base window_at current first now name = elim (lookup name base) [
  | none ↦ (put name first base, put name now window_at, put name first current)
  | some b ↦ (base, window_at, current)
]

abbrev not_positive : ℕ → Bool
not_positive d = if d == 0 then true else negative d

module _ {Rng : Type 0} where
  unfoldable pub apply_counter : ℕ → Map Bytes ℕ → ℕ → Pdu → Variation Rng × Outcome
  apply_counter delta current base pdu =
      let cur = (or_else_base base (lookup pdu.name current) + delta) % 2 ^ 64 in
      (counter_monotonic delta (put pdu.name cur current), done (with_value pdu cur))

  unfoldable pub apply_step :
      ℕ → ℕ → Map Bytes ℕ → Map Bytes ℕ → ℕ → ℕ → Pdu → Variation Rng × Outcome
  unfolding step_start int_quotient time_sub
  apply_step period delta base start_at first now pdu =
      let started = step_start base start_at first now pdu.name in
      let steps = int_quotient (time_sub now (value_at pdu.name started.1)) period in
      let n = (or_else_base first (lookup pdu.name base) + steps * delta) % 2 ^ 64 in
      (
        step period delta started.0 started.1,
        (if period == 0 then panicked else done (with_value pdu n)),
      )

  unfoldable pub apply_reset :
      ℕ → Map Bytes ℕ → Map Bytes ℕ → Map Bytes ℕ → ℕ → ℕ → Pdu → Variation Rng × Outcome
  unfolding reset_start time_sub
  apply_reset period base window_at current first now pdu =
      let started = reset_start base window_at current first now pdu.name in
      let (base_now, window, current_now) = started in
      let over = int_at_least (time_sub now (value_at pdu.name window)) period in
      let n =
        if over then value_at pdu.name base_now else (value_at pdu.name current_now + 1) % 2 ^ 64 in
      (
        periodic_reset period base_now (if over then put pdu.name now window else window)
            (put pdu.name n current_now),
        done (with_value pdu n),
      )

module _ {Rng : Type 0} (int63n : Rng → ℕ → ℕ × Rng) where
  -- `Int63n` panics if its bound is not positive.
  apply_jitter : ℕ → Rng → ℕ → Pdu → Variation Rng × Outcome
  apply_jitter max rng base pdu =
      let bound = (max * 2 + 1) % 2 ^ 64 in
      let drawn = int63n rng bound in
      let n = (base + (drawn.0 + (2 ^ 64 - max)) % 2 ^ 64) % 2 ^ 64 in
      if negative bound
      then (random_jitter max rng, panicked)
      else (random_jitter max drawn.1, done (with_value pdu n))

  unfoldable pub apply : ℕ → Pdu → Variation Rng → Variation Rng × Outcome
  unfolding to_int64 apply_counter apply_jitter apply_step apply_reset
  apply now pdu (counter_monotonic delta current) = elim (to_int64 pdu.value) [
    | none ↦ (counter_monotonic delta current, done pdu)
    | some base ↦ apply_counter delta current base pdu
  ]
  apply now pdu (random_jitter max rng) = elim (max == 0) [
    | true ↦ (random_jitter max rng, done pdu)
    | false ↦ elim (to_int64 pdu.value) [
      | none ↦ (random_jitter max rng, done pdu)
      | some base ↦ apply_jitter max rng base pdu
    ]
  ]
  apply now pdu (step period delta base start_at) = elim (to_int64 pdu.value) [
    | none ↦ (step period delta base start_at, done pdu)
    | some first ↦ apply_step period delta base start_at first now pdu
  ]
  apply now pdu (periodic_reset period base window_at current) = elim (to_int64 pdu.value) [
    | none ↦ (periodic_reset period base window_at current, done pdu)
    | some first ↦ apply_reset period base window_at current first now pdu
  ]
  apply now pdu drop_oid = (drop_oid, failed err_drop_oid pdu)
  apply now pdu (timeout delay) = (timeout delay, failed err_timeout pdu)

  -- `Chain.Apply`: the first error ends it, and leaves the variations behind it as they are.
  unfoldable pub apply_chain : ℕ → Pdu → List (Variation Rng) → List (Variation Rng) × Outcome
  unfolding apply
  apply_chain now pdu [] = ([], done pdu)
  apply_chain now pdu (v ∷ vs) = elim (apply now pdu v).1 [
    | done next ↦ ((apply now pdu v).0 ∷ (apply_chain now next vs).0, (apply_chain now next vs).1)
    | failed e last ↦ ((apply now pdu v).0 ∷ vs, failed e last)
    | panicked ↦ ((apply now pdu v).0 ∷ vs, panicked)
  ]

module _ {Rng : Type 0} where
  unfoldable pub new_counter_monotonic : ℕ → Variation Rng
  new_counter_monotonic delta = counter_monotonic (if delta == 0 then 1 else delta) []

  -- `new_source` is `rand.New(rand.NewSource(seed))`.
  unfoldable pub new_random_jitter : (ℕ → Rng) → ℕ → ℕ → Variation Rng
  new_random_jitter new_source max seed =
      random_jitter (if negative max then minus max else max)
        (new_source (if seed == 0 then 1 else seed))

  -- The default period is one second.
  unfoldable pub new_step : ℕ → ℕ → Variation Rng
  new_step period delta = step (if not_positive period then 1000000000 else period) delta [] []

  -- The default period is five minutes.
  unfoldable pub new_periodic_reset : ℕ → Variation Rng
  new_periodic_reset period =
      periodic_reset (if not_positive period then 300000000000 else period) [] [] []
