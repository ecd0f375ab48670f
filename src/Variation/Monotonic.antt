-- ===== src/Variation/Monotonic.antt =====
-- internal/variation/variation.go: a monotonic counter over a sequence of requests.
use go_snmpsim.Prelude.{
  ℕ, suc, ◌+◌, ◌*◌, ◌%◌, ◌^◌, ◌<◌, ◌≡◌, refl, ap, ◌∙◌, Option, none, some, Option-cases, inl, inr,
  List, [], ◌∷◌, Bytes, bytes_eq, bytes_eq_iff, arith, ◌==◌, Map, text_eq, lookup, put, lookup-put,
  lookup-nil, if◌then◌else◌,
}
use go_snmpsim.Snmp.{Pdu, Value, nil, string, int, int32, int64, uint, uint32, uint64}
use go_snmpsim.Variation.{
  Variation, counter_monotonic, done, to_int64, apply_counter, apply, or_else_base, with_value,
  new_counter_monotonic,
}

pub to_int64-lt : (v : Value) (n : ℕ) → to_int64 v ≡ some n → n < 2 ^ 64
unfolding to_int64
to_int64-lt nil n h = cc
to_int64-lt (string s) n h = cc
to_int64-lt (int x) n h = ground arith
to_int64-lt (int32 x) n h = ground arith
to_int64-lt (int64 x) n h = ground arith
to_int64-lt (uint x) n h = ground arith
to_int64-lt (uint32 x) n h = ground arith
to_int64-lt (uint64 x) n h = ground arith

-- A request: its time, and the answer before it varies.
abbrev pub Request : Type 0
Request = ℕ × Pdu

module _ {Rng : Type 0} (int63n : Rng → ℕ → ℕ × Rng) where
  -- A variation after some requests.
  unfoldable pub after : List Request → Variation Rng → Variation Rng
  after [] v = v
  after ((now, pdu) ∷ rs) v = after rs (apply int63n now pdu v).0

-- The number that a request shows for a name, if it has one.
pub number_for : Bytes → Pdu → Option ℕ
number_for name pdu = if bytes_eq pdu.name name then to_int64 pdu.value else none

-- The first number for a name, and how many there are.
pub first_number : Bytes → List Request → Option ℕ
first_number name [] = none
first_number name ((now, pdu) ∷ rs) =
    let rest = first_number name rs in elim (number_for name pdu) [ none ↦ rest | some n ↦ some n ]

pub numbers : Bytes → List Request → ℕ
numbers name [] = 0
numbers name ((now, pdu) ∷ rs) =
    let rest = numbers name rs in elim (number_for name pdu) [ none ↦ rest | some n ↦ suc rest ]

module _ {Rng : Type 0} (int63n : Rng → ℕ → ℕ × Rng) (delta : ℕ) (name : Bytes) where
  mul-one_left : (d : ℕ) → 1 * d ≡ d
  mul-one_left d = omega arith

  -- What the counter shows for the name next.
  abbrev next : ℕ → List Request → Option ℕ → ℕ
  next base rs none =
      (or_else_base base (first_number name rs) + suc (numbers name rs) * delta) % 2 ^ 64
  next base rs (some c) = (c + suc (numbers name rs) * delta) % 2 ^ 64

  -- The map of the counter after one request.
  stored : Pdu → Map Bytes ℕ → Map Bytes ℕ
  stored p current = elim (to_int64 p.value) [
    | none ↦ current
    | some b ↦ put p.name ((or_else_base b (lookup p.name current) + delta) % 2 ^ 64) current
  ]

  apply-stored :
      (now : ℕ) (p : Pdu) (current : Map Bytes ℕ)
      → (apply int63n now p (counter_monotonic delta current)).0
        ≡ counter_monotonic delta (stored p current)
  unfolding apply apply_counter stored
  apply-stored now p current = elim (Option-cases (to_int64 p.value)) [
    | inl e ↦ rw (e, apply, stored)
    | inr (b, e) ↦ rw (e, apply, stored)
  ]

  add_round :
      (c k : ℕ)
      → ((c + delta) % 2 ^ 64 + suc k * delta) % 2 ^ 64 ≡ (c + suc (suc k) * delta) % 2 ^ 64
  add_round c k = omega arith

  next-stored :
      (base : ℕ) (now : ℕ) (p : Pdu) (rs : List Request) (current : Map Bytes ℕ)
      → next base rs (lookup name (stored p current))
        ≡ next base ((now, p) ∷ rs) (lookup name current)
  unfolding stored first_number numbers number_for
  next-stored base now p rs current = elim (Option-cases (to_int64 p.value)) [
    | inl e ↦ elim (Option-cases (lookup name current)) [
      | inl f ↦ ground (arith, e, f)
      | inr (c, f) ↦ ground (arith, e, f)
    ]
    | inr (b, e) ↦
        let new = (or_else_base b (lookup p.name current) + delta) % 2 ^ 64 in
        elim (Option-cases (lookup name current)) [
          | inl f ↦ ground (
            arith,
            e,
            f,
            bytes_eq_iff p.name name,
            lookup-put p.name name new current,
            add_round b (numbers name rs),
          )
          | inr (c, f) ↦ ground (
            arith,
            e,
            f,
            bytes_eq_iff p.name name,
            lookup-put p.name name new current,
            add_round c (numbers name rs),
          )
        ]
  ]

  shown-after :
      (pdu : Pdu) (base : ℕ)
      → pdu.name ≡ name
      → to_int64 pdu.value ≡ some base
      → (rs : List Request) (current : Map Bytes ℕ) (now : ℕ)
      → (apply int63n now pdu (after int63n rs (counter_monotonic delta current))).1
        ≡ done (with_value pdu (next base rs (lookup name current)))
  unfolding apply apply_counter after numbers first_number
  shown-after pdu base n e [] current now = elim (Option-cases (lookup name current)) [
    | inl f ↦ rw (e, apply, n, f, mul-one_left)
    | inr (c, f) ↦ rw (e, apply, n, f, mul-one_left)
  ]
  shown-after pdu base n e ((t, p) ∷ rs) current now = rw (apply-stored t p current) (
      shown-after pdu base n e rs (stored p current) now
      ∙ ap (λ k. done (with_value pdu k)) (next-stored base t p rs current))

-- After any requests, a new monotonic counter shows for a numeric answer the first number that it was
-- shown for that name, increased by its delta for every number of that name so far, this one
-- included, in an int64; numbers of other names do not count. A delta of zero counts as one.
pub counter-after :
    {Rng : Type 0} (int63n : Rng → ℕ → ℕ × Rng) (delta : ℕ) (rs : List Request) (now : ℕ)
    (pdu : Pdu) (base : ℕ)
    → to_int64 pdu.value ≡ some base
    → let first = or_else_base base (first_number pdu.name rs) in
      let d = if delta == 0 then 1 else delta in
      (apply int63n now pdu (after int63n rs (new_counter_monotonic delta))).1
      ≡ done (with_value pdu ((first + suc (numbers pdu.name rs) * d) % 2 ^ 64))
unfolding new_counter_monotonic
counter-after int63n delta rs now pdu base e =
    rw lookup-nil at
      (shown-after int63n (if delta == 0 then 1 else delta) pdu.name pdu base refl e rs [] now)
