-- ===== src/Agent/Handlers/Indexed.antt =====
-- internal/agent/agent.go: what a GETBULK answers, with the index of a database without tables or
-- without an index manager.
use mathlib.Core.List.{append-nil}
use go_snmpsim.Prelude.{
  ℕ, zero, suc, ◌+◌, ◌≤◌, ◌<◌, ◌≡◌, refl, ap, sym, ◌∙◌, Bool-cases, false, Option, none, some,
  Option-cases, inl, inr, List, [], ◌∷◌, ◌++◌, append_assoc, Bytes, is_empty, All, All-get_or,
  length, get_or, drop, drop-get_or, take, arith, ◌==◌, if◌then◌else◌,
}
use go_snmpsim.Oid.Render.{IsCanonical}
use go_snmpsim.Snmp.{OidValue, Pdu, end_of_contents, no_such_object}
use go_snmpsim.Positions.Ascending.{IsAscending}
use go_snmpsim.Database
use go_snmpsim.Database.{OidDatabase, get}
use go_snmpsim.Database.Consistent.{IsConsistent}
use go_snmpsim.Database.Walk.{get_next-at}
use go_snmpsim.Table.Structure.{is_table_entry}
use go_snmpsim.Index
use go_snmpsim.Index.{new_oid_index_manager, build_index}
use go_snmpsim.Index.Refines.{answer, mem-get_or}
use go_snmpsim.Index.Built.{built_get_next}
use go_snmpsim.Variation.Binder.{apply_binder}
use go_snmpsim.Agent.{
  IndexManager, VirtualAgent, Outside, is_type, normalize_oid, get_oid_value, resolve_type,
  get_next_oid,
}
use go_snmpsim.Agent.Handlers.{
  response, State, is_end, pdu_of, next_read, apply_variations, repeat_loop, bulk_step, bulk_loop,
  handle_get_bulk_request,
}
use go_snmpsim.Agent.Handlers.Get.{names_of}
use go_snmpsim.Agent.Handlers.Bulk.{
  HasNoEnd, normalize_oid-IsCanonical, handle_get_bulk_request-names,
}

-- `NewOIDIndexManager` and `BuildIndex` for a database, as the agent uses them.
abbrev pub index_of : OidDatabase → IndexManager
index_of built oid odb = Index.get_next (build_index built new_oid_index_manager) odb oid

module _ {Rng W : Type 0} (int63n : Rng → ℕ → ℕ × Rng) (outside : Outside W) (va : VirtualAgent)
    (now : ℕ) (odb : OidDatabase) where
  abbrev oids : List Bytes
  oids = odb.sorted_oids

  abbrev at : ℕ → Bytes
  at i = get_or oids i []

  abbrev idle : W → State Rng W
  idle w = record { binder = none; world = w }

  module _ (a : IsAscending oids) (named : All (λ s. is_empty s ≡ false) oids)
      (consistent : IsConsistent odb) (none_of_table : All (λ s. is_table_entry s ≡ false) oids)
      (no_end : HasNoEnd outside va odb)
      (no_stored_end : (oid : Bytes) (v : OidValue) → get odb oid ≡ some v → is_end v ≡ false) where
    resolved-inside :
        (k : ℕ) (v : OidValue) (w : W)
        → k < length oids
        → is_end v ≡ false
        → (r : OidValue) × (w' : W) × (resolve_type outside va odb (at k) (some v) w ≡ (some r, w'))
          × (is_end r ≡ false)
    unfolding resolve_type
    resolved-inside k v w h e =
        let read = get_oid_value outside va (some odb) (at k) w in
        elim (Bool-cases (is_type v.type end_of_contents)) [
          | inr other ↦ (v, w, rw other refl, e)
          | inl unknown ↦ elim (Bool-cases (is_type read.0.type no_such_object)) [
            | inl none_found ↦ (v, read.1, rw (unknown, none_found) refl, e)
            | inr found ↦ (read.0, read.1, rw (unknown, found) refl, no_end k w h)
          ]
        ]

    -- Behind the OID before place `k` the agent reads the OID there, and no end.
    read-inside :
        (k : ℕ) (oid : Bytes) (w : W)
        → k < length oids
        → Database.get_next odb (normalize_oid oid) ≡ at k
        → (r : OidValue) × (w' : W) × (get_next_oid outside va
              (some (index_of odb))
              (some odb)
              oid
              w
            ≡ ((at k, some r), w'))
          × (is_end r ≡ false)
    unfolding get_next_oid
    read-inside k oid w h e = elim (Option-cases (get odb (at k))) [
      | inl missing ↦ absurd (consistent.stored (at k) (mem-get_or oids k h) missing)
      | inr (v, stored) ↦
          let (r, w', p, q) = resolved-inside k v w h (no_stored_end (at k) v stored) in
          let n = All-get_or [] (λ t. is_empty t ≡ false) oids k named h in
          let found : index_of odb (normalize_oid oid) odb ≡ (at k, some v) =
            built_get_next odb a consistent none_of_table named (normalize_oid oid)
            ∙ ap (answer odb) e
            ∙ rw (n, stored) refl in
          (r, w', rw (found, p) refl, q)
    ]

    repeat_loop-step :
        (left : ℕ) (oid next : Bytes) (v : OidValue) (vars : List Pdu) (w w' : W)
        → get_next_oid outside va (some (index_of odb)) (some odb) oid w ≡ ((next, some v), w')
        → is_end v ≡ false
        → repeat_loop int63n outside va now
            (some (index_of odb))
            (some odb)
            (suc left)
            oid
            vars
            (idle w)
          ≡ repeat_loop int63n outside va now
              (some (index_of odb))
              (some odb)
              left
              next
              (vars ++ pdu_of next v ∷ [])
              (idle w')
    unfolding repeat_loop next_read apply_variations apply_binder
    repeat_loop-step left oid next v vars w w' e f = rw (repeat_loop, e, f, e) refl

    repeat_loop-indexed :
        (left k : ℕ) (current_oid : Bytes) (vars : List Pdu) (w : W)
        → k + left ≤ length oids
        → Database.get_next odb (normalize_oid current_oid) ≡ at k
        → (rest : List Pdu) × (w' : W) × (repeat_loop int63n outside va now
              (some (index_of odb))
              (some odb)
              left
              current_oid
              vars
              (idle w)
            ≡ ((none, vars ++ rest), idle w'))
          × (names_of rest ≡ take left (drop k oids))
    unfolding repeat_loop
    repeat_loop-indexed zero k current_oid vars w h e =
        ([], w, ap (λ l. ((none, l), idle w)) (sym (append-nil vars)), refl)
    repeat_loop-indexed (suc left) k current_oid vars w h e =
        let lt : k < length oids = omega arith in
        let (v, w1, read, open_end) = read-inside k current_oid w lt e in
        let c = All-get_or [] IsCanonical oids k a.canonical lt in
        let next : Database.get_next odb (normalize_oid (at k)) ≡ at (suc k) =
          rw (normalize_oid-IsCanonical (at k) c) (get_next-at odb a k lt) in
        let (rest, w', p, q) =
          repeat_loop-indexed left (suc k) (at k) (vars ++ pdu_of (at k) v ∷ []) w1 (omega arith)
            next in
        (
          pdu_of (at k) v ∷ rest,
          w',
          repeat_loop-step left current_oid (at k) v vars w w1 read open_end
              ∙ p
              ∙ ap (λ l. ((none, l), idle w')) (append_assoc vars (pdu_of (at k) v ∷ []) rest),
          rw (drop-get_or oids k [] lt) (ap (◌∷◌ (at k)) q),
        )

-- The repetitions that are asked for: zero stands for ten.
abbrev pub asked : ℕ → ℕ
asked max_repetitions = if max_repetitions == 0 then 10 else max_repetitions

-- The agent has no index manager; or it has the index of the database, which has no tables, and as many
-- OIDs are left behind place `k` as are asked for.
pub data Serves (odb : OidDatabase) (k max_repetitions : ℕ) : Option IndexManager → Type 0 where
  alone : Serves odb k max_repetitions none
  indexed :
      IsConsistent odb
      → All (λ s. is_table_entry s ≡ false) odb.sorted_oids
      → ((oid : Bytes) (v : OidValue) → get odb oid ≡ some v → is_end v ≡ false)
      → suc k + asked max_repetitions ≤ length odb.sorted_oids
      → Serves odb k max_repetitions (some (index_of odb))

-- The OIDs of the database are ascending, none is the empty text, and no value that is stored or that the
-- agent has for a stored OID is of the type EndOfMibView. The agent has no index manager; or it has the
-- index that `BuildIndex` makes of the database, the database has no tables, and behind the OID that is
-- asked for there are as many OIDs as repetitions. Then a GETBULK for a stored OID, with no variable
-- before the repeaters and without variations, is answered without an error by as many of the OIDs
-- behind it as repetitions were asked for, in order and without an upper limit, or by all of them if
-- there are fewer, with no mark of the end; zero repetitions stand for ten.
pub handle_get_bulk_request-served :
    {Rng W : Type 0} (int63n : Rng → ℕ → ℕ × Rng) (outside : Outside W) (va : VirtualAgent)
    (now : ℕ) (odb : OidDatabase) (index : Option IndexManager) (k max_repetitions : ℕ) (w : W)
    → IsAscending odb.sorted_oids
    → All (λ s. is_empty s ≡ false) odb.sorted_oids
    → HasNoEnd outside va odb
    → k < length odb.sorted_oids
    → Serves odb k max_repetitions index
    → (vars : List Pdu) × (w' : W) × (handle_get_bulk_request int63n outside va now index
          (some odb)
          0
          max_repetitions
          (get_or odb.sorted_oids k [] ∷ [])
          (record { binder = none; world = w })
        ≡ (response vars 0 0, record { binder = none; world = w' }))
      × (names_of vars ≡ take (asked max_repetitions) (drop (suc k) odb.sorted_oids))
unfolding handle_get_bulk_request bulk_loop bulk_step
handle_get_bulk_request-served int63n outside va now odb none k max_repetitions w a named no_end h
      alone =
    handle_get_bulk_request-names int63n outside va now odb k max_repetitions w a named no_end h
handle_get_bulk_request-served int63n outside va now odb (some i) k max_repetitions w a named no_end
      h (indexed consistent none_of_table no_stored_end enough) =
    let oid = get_or odb.sorted_oids k [] in
    let c = All-get_or [] IsCanonical odb.sorted_oids k a.canonical h in
    let next : Database.get_next odb (normalize_oid oid) ≡ get_or odb.sorted_oids (suc k) [] =
      rw (normalize_oid-IsCanonical oid c) (get_next-at odb a k h) in
    let (vars, w', p, q) =
      repeat_loop-indexed int63n outside va now odb a named consistent none_of_table no_end
        no_stored_end (asked max_repetitions) (suc k) oid [] w enough next in
    (vars, w', rw (p, bulk_loop, bulk_step, p), q)
