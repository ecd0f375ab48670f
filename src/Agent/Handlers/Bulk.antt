-- ===== src/Agent/Handlers/Bulk.antt =====
-- internal/agent/agent.go: what a GETBULK answers from a database in order.
use mathlib.Core.List.{append-nil}
use go_snmpsim.Prelude.{
  get_or_past, drop-get_or, drop_all, ℕ, zero, suc, ◌≤◌, ◌<◌, ◌≡◌, ◌≢◌, refl, ap, sym, ◌∙◌,
  Bool-cases, true, false, none, some, inl, inr, List, [], ◌∷◌, ◌++◌, append_assoc, Bytes, is_empty,
  All, All-get_or, length, get_or, drop, take, arith, ltb, ltb→lt, ◌==◌, if◌then◌else◌,
}
use go_snmpsim.Oid.Render.{IsCanonical, IsCanonical-no_dot}
use go_snmpsim.Snmp.{OidValue, Pdu, Asn1Ber-discrete, end_of_mib_view}
use go_snmpsim.Positions.Ascending.{IsAscending}
use go_snmpsim.Database.{OidDatabase, get_next}
use go_snmpsim.Database.Walk.{get_next-at}
use go_snmpsim.Variation.Binder.{apply_binder}
use go_snmpsim.Agent.{
  VirtualAgent, Outside, normalize_oid, get_oid_value, get_next_in, get_next_oid, end_of_mib,
}
use go_snmpsim.Agent.Handlers.{
  response, State, is_end, pdu_of, next_read, apply_variations, repeat_loop, bulk_step, bulk_loop,
  handle_get_bulk_request,
}
use go_snmpsim.Agent.Handlers.Get.{names_of}

pub normalize_oid-IsCanonical : (s : Bytes) → IsCanonical s → normalize_oid s ≡ s
unfolding normalize_oid
normalize_oid-IsCanonical [] c = refl
normalize_oid-IsCanonical (d ∷ s) c = rw (IsCanonical-no_dot d s c)

is_end-end_of_mib : is_end end_of_mib ≡ true
is_end-end_of_mib =
    elim (Asn1Ber-discrete end_of_mib_view end_of_mib_view)
      as (λ d. elim d [ yes e ↦ true | no n ↦ false ] ≡ true) [
        | yes e ↦ refl
        | no n ↦ absurd (n refl)
      ]

pub is_end-false : (v : OidValue) → v.type ≢ end_of_mib_view → is_end v ≡ false
is_end-false v h =
    elim (Asn1Ber-discrete v.type end_of_mib_view)
      as (λ d. elim d [ yes e ↦ true | no n ↦ false ] ≡ false) [
        | yes e ↦ absurd (h e)
        | no n ↦ refl
      ]

-- No value that the agent has for a stored OID is of the type EndOfMibView.
abbrev pub HasNoEnd : {W : Type 0} → Outside W → VirtualAgent → OidDatabase → Type 0
HasNoEnd {W} outside va odb =
    (k : ℕ) (w : W)
    → k < length odb.sorted_oids
    → is_end (get_oid_value outside va (some odb) (get_or odb.sorted_oids k []) w).0 ≡ false

module _ {Rng W : Type 0} (int63n : Rng → ℕ → ℕ × Rng) (outside : Outside W) (va : VirtualAgent)
    (now : ℕ) (odb : OidDatabase) where
  abbrev oids : List Bytes
  oids = odb.sorted_oids

  abbrev at : ℕ → Bytes
  at i = get_or oids i []

  abbrev steady : W → State Rng W
  steady w = record { binder = none; world = w }

  abbrev read_at : ℕ → W → OidValue × W
  read_at k w = get_oid_value outside va (some odb) (at k) w

  get_next_in-inside :
      (k : ℕ) (oid : Bytes) (w : W)
      → get_next odb oid ≡ at k
      → is_empty (at k) ≡ false
      → get_next_in outside va odb oid w ≡ ((at k, some (read_at k w).0), (read_at k w).1)
  unfolding get_next_in
  get_next_in-inside k oid w e n = rw (e, get_next_in, n)

  get_next_in-end :
      (oid : Bytes) (w : W)
      → get_next odb oid ≡ []
      → get_next_in outside va odb oid w ≡ ((oid, some end_of_mib), w)
  unfolding get_next_in
  get_next_in-end oid w e = rw (e, get_next_in)

  module _ (a : IsAscending oids) (named : All (λ s. is_empty s ≡ false) oids)
      (no_end : HasNoEnd outside va odb) where
    -- From the OID before place `k` the loop goes through the OIDs from there.
    repeat_loop-names :
        (left k : ℕ) (current_oid : Bytes) (vars : List Pdu) (w : W)
        → get_next odb (normalize_oid current_oid) ≡ at k
        → (rest : List Pdu) × (w' : W) × (repeat_loop int63n outside va now none
              (some odb)
              left
              current_oid
              vars
              (steady w)
            ≡ ((none, vars ++ rest), steady w'))
          × (names_of rest ≡ take left (drop k oids))
    unfolding repeat_loop next_read apply_variations apply_binder get_next_oid get_next_in
    repeat_loop-names zero k current_oid vars w e =
        ([], w, ap (λ l. ((none, l), steady w)) (sym (append-nil vars)), refl)
    repeat_loop-names (suc left) k current_oid vars w e = elim (Bool-cases (ltb k (length oids))) [
      | inl more ↦
          let lt = ltb→lt _ _ more in
          let c = All-get_or [] IsCanonical oids k a.canonical lt in
          let v = get_oid_value outside va (some odb) (at k) w in
          let pdu = pdu_of (at k) v.0 in
          let next : get_next odb (normalize_oid (at k)) ≡ at (suc k) =
            rw (normalize_oid-IsCanonical (at k) c) (get_next-at odb a k lt) in
          let (rest, w', p, q) =
            repeat_loop-names left (suc k) (at k) (vars ++ pdu ∷ []) v.1 next in
          let n = All-get_or [] (λ t. is_empty t ≡ false) oids k named lt in
          (
            pdu ∷ rest,
            w',
            rw
                (
                  repeat_loop,
                  e,
                  n,
                  no_end k w lt,
                  get_next_in-inside k (normalize_oid current_oid) w e n,
                )
                (p ∙ ap (λ l. ((none, l), steady w')) (append_assoc vars (pdu ∷ []) rest)),
            rw (drop-get_or oids k [] lt) (ap (◌∷◌ (at k)) q),
          )
      | inr last ↦
          let past : length oids ≤ k = ground arith in
          let done : get_next odb (normalize_oid current_oid) ≡ [] =
            e ∙ get_or_past oids k [] past in
          (
            [],
            w,
            rw
                (
                  repeat_loop,
                  done,
                  is_end-end_of_mib,
                  get_next_in-end (normalize_oid current_oid) w done,
                )
                (ap (λ l. ((none, l), steady w)) (sym (append-nil vars))),
            rw (drop_all oids k past),
          )
    ]

-- If the OIDs of the database are ascending, none is the empty text, and no value is of the type
-- EndOfMibView, then a GETBULK for a stored OID, with no variable before the repeaters, without an
-- index manager and without variations, is answered without an error by as many of the OIDs behind
-- it as repetitions were asked for, in order, or by all of them if there are fewer; zero repetitions
-- stand for ten.
pub handle_get_bulk_request-names :
    {Rng W : Type 0} (int63n : Rng → ℕ → ℕ × Rng) (outside : Outside W) (va : VirtualAgent)
    (now : ℕ) (odb : OidDatabase) (k max_repetitions : ℕ) (w : W)
    → IsAscending odb.sorted_oids
    → All (λ s. is_empty s ≡ false) odb.sorted_oids
    → HasNoEnd outside va odb
    → k < length odb.sorted_oids
    → (vars : List Pdu) × (w' : W) × (handle_get_bulk_request int63n outside va now none
          (some odb)
          0
          max_repetitions
          (get_or odb.sorted_oids k [] ∷ [])
          (record { binder = none; world = w })
        ≡ (response vars 0 0, record { binder = none; world = w' }))
      × (names_of vars
          ≡ take
              (if max_repetitions == 0 then 10 else max_repetitions)
              (drop (suc k) odb.sorted_oids))
unfolding handle_get_bulk_request bulk_loop bulk_step
handle_get_bulk_request-names int63n outside va now odb k max_repetitions w a named no_end h =
    let oid = get_or odb.sorted_oids k [] in
    let c = All-get_or [] IsCanonical odb.sorted_oids k a.canonical h in
    let next : get_next odb (normalize_oid oid) ≡ get_or odb.sorted_oids (suc k) [] =
      rw (normalize_oid-IsCanonical oid c) (get_next-at odb a k h) in
    let (vars, w', p, q) =
      repeat_loop-names int63n outside va now odb a named no_end
        (if max_repetitions == 0 then 10 else max_repetitions) (suc k) oid [] w next in
    (vars, w', rw (p, bulk_loop, bulk_step, p), q)
