-- ===== src/Agent/Handlers.antt =====
-- internal/agent/agent.go: the handlers of the requests, up to the packet that gosnmp encodes.
pub mod Get
pub mod Bulk
pub mod Indexed
use go_snmpsim.Prelude.{
  ℕ, zero, suc, ◌-◌, ◌^◌, Bool, true, false, Option, none, some, List, [], ◌∷◌, ◌++◌, Bytes, ltb,
  leb, ◌==◌, if◌then◌else◌,
}
use go_snmpsim.Snmp.{Asn1Ber, end_of_mib_view, Asn1Ber-discrete, OidValue, Pdu}
use go_snmpsim.Database.{OidDatabase}
use go_snmpsim.Variation.{Failure, err_drop_oid, err_timeout, Outcome, done, failed, panicked}
use go_snmpsim.Variation.Binder.{Binder, apply_binder}
use go_snmpsim.Agent.{VirtualAgent, IndexManager, Outside, get_oid_value, get_next_oid}

-- What comes of a request: the variables, the error and its index; no answer; or a run-time error.
pub data Reply : Type 0 where
  response : List Pdu → ℕ → ℕ → Reply
  no_reply : Reply
  crashed : Reply

-- What the handlers do with a varied answer. The variations return no other errors.
pub data Varied : Type 0 where
  sent : Pdu → Varied
  dropped timed_out broken : Varied

abbrev pub varied_of : Outcome → Varied
varied_of (done pdu) = sent pdu
varied_of (failed err_drop_oid pdu) = dropped
varied_of (failed err_timeout pdu) = timed_out
varied_of panicked = broken

abbrev pub pdu_of : Bytes → OidValue → Pdu
pdu_of name value = record { name = name; type = value.type; value = value.value }

abbrev pub is_end : OidValue → Bool
is_end value = elim (Asn1Ber-discrete value.type end_of_mib_view) [ yes e ↦ true | no n ↦ false ]

-- The state that a request changes: the variations and the outside world.
pub record State (Rng W : Type 0) : Type 0 where
  pub binder : Option (Binder Rng)
  pub world : W

module _ {Rng W : Type 0} (int63n : Rng → ℕ → ℕ × Rng) (outside : Outside W) (va : VirtualAgent)
    (now : ℕ) where
  -- `applyVariations`
  unfoldable pub apply_variations : Pdu → State Rng W → Varied × State Rng W
  apply_variations pdu s =
      let r = apply_binder int63n now pdu s.binder in (varied_of r.1, record s { binder = r.0 })

  unfoldable pub vary_value : Option OidDatabase → Bytes → State Rng W → Varied × State Rng W
  unfolding apply_variations
  vary_value odb name s =
      let read = get_oid_value outside va odb name s.world in
      apply_variations (pdu_of name read.0) (record s { world = read.1 })

  -- The loop of `handleGetRequest`.
  unfoldable pub get_loop :
      Option OidDatabase → List Bytes → List Pdu → State Rng W → Reply × State Rng W
  unfolding vary_value
  get_loop odb [] vars s = (response vars 0 0, s)
  get_loop odb (name ∷ names) vars s = elim (vary_value odb name s).0 [
    | sent pdu ↦ get_loop odb names (vars ++ pdu ∷ []) (vary_value odb name s).1
    | dropped ↦ get_loop odb names vars (vary_value odb name s).1
    | timed_out ↦ (no_reply, (vary_value odb name s).1)
    | broken ↦ (crashed, (vary_value odb name s).1)
  ]

  unfoldable pub handle_get_request :
      Option OidDatabase → List Bytes → State Rng W → Reply × State Rng W
  unfolding get_loop
  handle_get_request odb names s = get_loop odb names [] s

  -- The OID behind `name` with its varied value; `none` if the value is nil.
  unfoldable pub next_read :
      Option IndexManager
      → Option OidDatabase
      → Bytes
      → State Rng W
      → (Bytes × Option OidValue) × State Rng W
  next_read index odb name s =
      let read = get_next_oid outside va index odb name s.world in
      (read.0, record s { world = read.1 })

  -- The loop of `handleGetNextRequest`.
  unfoldable pub get_next_loop :
      Option IndexManager
      → Option OidDatabase
      → List Bytes
      → List Pdu
      → State Rng W
      → Reply × State Rng W
  unfolding apply_variations next_read
  get_next_loop index odb [] vars s = (response vars 0 0, s)
  get_next_loop index odb (name ∷ names) vars s =
      let read = next_read index odb name s in
      elim read.0.1 [
        | none ↦ get_next_loop index odb names vars read.1
        | some val ↦ elim (apply_variations (pdu_of read.0.0 val) read.1).0 [
          | sent pdu ↦
              get_next_loop index odb names (vars ++ pdu ∷ [])
                (apply_variations (pdu_of read.0.0 val) read.1).1
          | dropped ↦
              get_next_loop index odb names vars (apply_variations (pdu_of read.0.0 val) read.1).1
          | timed_out ↦ (no_reply, (apply_variations (pdu_of read.0.0 val) read.1).1)
          | broken ↦ (crashed, (apply_variations (pdu_of read.0.0 val) read.1).1)
        ]
      ]

  unfoldable pub handle_get_next_request :
      Option IndexManager → Option OidDatabase → List Bytes → State Rng W → Reply × State Rng W
  unfolding get_next_loop
  handle_get_next_request index odb names s = get_next_loop index odb names [] s

  -- The inner loop of `handleGetBulkRequest`, with `left` rounds to go, and what it returns: the
  -- variables, or the reply that ends the request.
  unfoldable pub repeat_loop :
      Option IndexManager
      → Option OidDatabase
      → (left : ℕ) → (current_oid : Bytes) → List Pdu
      → State Rng W
      → (Option Reply × List Pdu) × State Rng W
  unfolding apply_variations next_read
  repeat_loop index odb zero current_oid vars s = ((none, vars), s)
  repeat_loop index odb (suc left) current_oid vars s =
      let read = next_read index odb current_oid s in
      elim read.0.1 [
        | none ↦ ((none, vars), read.1)
        | some val ↦ elim (is_end val) [
          | true ↦ ((none, vars), read.1)
          | false ↦ elim (apply_variations (pdu_of read.0.0 val) read.1).0 [
            | sent pdu ↦
                repeat_loop index odb left read.0.0 (vars ++ pdu ∷ [])
                  (apply_variations (pdu_of read.0.0 val) read.1).1
            | dropped ↦
                repeat_loop index odb left read.0.0 vars
                  (apply_variations (pdu_of read.0.0 val) read.1).1
            | timed_out ↦ ((some no_reply, vars), (apply_variations (pdu_of read.0.0 val) read.1).1)
            | broken ↦ ((some crashed, vars), (apply_variations (pdu_of read.0.0 val) read.1).1)
          ]
        ]
      ]

  -- A variable before the repeaters: one round, in which the end of the MIB is answered.
  unfoldable pub single :
      Option IndexManager
      → Option OidDatabase
      → Bytes
      → List Pdu
      → State Rng W
      → (Option Reply × List Pdu) × State Rng W
  unfolding apply_variations next_read
  single index odb name vars s =
      let read = next_read index odb name s in
      elim read.0.1 [
        | none ↦ ((none, vars), read.1)
        | some val ↦ elim (apply_variations (pdu_of read.0.0 val) read.1).0 [
          | sent pdu ↦ ((none, vars ++ pdu ∷ []), (apply_variations (pdu_of read.0.0 val) read.1).1)
          | dropped ↦ ((none, vars), (apply_variations (pdu_of read.0.0 val) read.1).1)
          | timed_out ↦ ((some no_reply, vars), (apply_variations (pdu_of read.0.0 val) read.1).1)
          | broken ↦ ((some crashed, vars), (apply_variations (pdu_of read.0.0 val) read.1).1)
        ]
      ]

  -- A round of the outer loop, with `singles` variables to go before the repeaters.
  unfoldable pub bulk_step :
      Option IndexManager
      → Option OidDatabase
      → (singles max_repeaters : ℕ) → Bytes
      → List Pdu
      → State Rng W
      → (Option Reply × List Pdu) × State Rng W
  unfolding single repeat_loop
  bulk_step index odb zero max_repeaters name vars s =
      repeat_loop index odb max_repeaters name vars s
  bulk_step index odb (suc singles) max_repeaters name vars s = single index odb name vars s

  -- The outer loop, with `singles` variables to go before the repeaters.
  unfoldable pub bulk_loop :
      Option IndexManager
      → Option OidDatabase
      → (singles max_repeaters : ℕ) → List Bytes
      → List Pdu
      → State Rng W
      → Reply × State Rng W
  unfolding bulk_step
  bulk_loop index odb singles max_repeaters [] vars s = (response vars 0 0, s)
  bulk_loop index odb singles max_repeaters (name ∷ names) vars s =
      let r = bulk_step index odb singles max_repeaters name vars s in
      elim r.0.0 [
        | some reply ↦ (reply, r.1)
        | none ↦ bulk_loop index odb (singles - 1) max_repeaters names r.0.1 r.1
      ]

  -- The request's fields are a byte and a uint32. Ten repetitions are the default.
  unfoldable pub handle_get_bulk_request :
      Option IndexManager
      → Option OidDatabase
      → (non_repeaters max_repetitions : ℕ) → List Bytes
      → State Rng W
      → Reply × State Rng W
  unfolding bulk_loop
  handle_get_bulk_request index odb non_repeaters max_repetitions names s =
      bulk_loop index odb non_repeaters (if max_repetitions == 0 then 10 else max_repetitions) names
        [] s

-- Error 4 is readOnly of SNMPv1; its index is always 1.
unfoldable pub handle_set_request : List Pdu → Reply
handle_set_request variables = response [] 4 1
