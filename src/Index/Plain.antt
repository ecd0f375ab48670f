-- ===== src/Index/Plain.antt =====
-- internal/store/index_manager.go: `GetNext` and `GetNextBulk` for OIDs outside tables.
use go_snmpsim.Prelude.{
  ℕ, zero, suc, ◌+◌, ◌-◌, ◌^◌, ◌≤◌, ◌<◌, ◌≡◌, refl, sym, ap, ◌∙◌, true, false, Option, none, some,
  List, [], ◌∷◌, Bytes, is_empty, bytes_eq_refl, All, All-get_or, length, get_or, drop, drop-get_or,
  drop_all, ltb, ltb→lt, lt→ltb, arith, Option-cases, Bool-cases, inl, inr,
}
use go_snmpsim.Positions.Ascending.{IsAscending}
use go_snmpsim.Positions.Place.{search_oid_position-at}
use go_snmpsim.Snmp.{OidValue}
use go_snmpsim.Database.{OidDatabase, get}
use go_snmpsim.Index.{
  OidIndexManager, is_table_oid, place_behind, first_valid, get_next_plain, get_next, or_type_2,
}
use go_snmpsim.Index.Bulk.Bounds.{limit_repeaters_range}
use go_snmpsim.Index.Bulk.{
  GetNextBulkResult, limit_repeaters, collect_loop, get_next_bulk_regular, get_next_bulk,
}

first_valid-some :
    (odb : OidDatabase) (oid : Bytes) (xs : List Bytes) {value : OidValue}
    → get odb oid ≡ some value
    → first_valid odb (oid ∷ xs) ≡ some (oid, value)
unfolding first_valid
first_valid-some odb oid xs e = rw (first_valid, e)

first_valid-none :
    (odb : OidDatabase) (oid : Bytes) (xs : List Bytes)
    → get odb oid ≡ none
    → first_valid odb (oid ∷ xs) ≡ first_valid odb xs
unfolding first_valid
first_valid-none odb oid xs e = rw (first_valid, e)

module _ (im : OidIndexManager) (odb : OidDatabase) where
  abbrev oids : List Bytes
  oids = im.sorted_oids

  -- The first OID with a value from place `k` on.
  abbrev from : ℕ → Bytes × Option OidValue
  from k = or_type_2 (first_valid odb (drop k oids))

  get_next_plain-from : (oid : Bytes) → get_next_plain im odb oid ≡ from (place_behind oids oid)
  unfolding get_next_plain
  get_next_plain-from oid =
      let k = place_behind oids oid in
      let step : k + 1 ≡ suc k = omega arith in
      elim (Bool-cases (ltb k (length oids))) [
        | inr past ↦ rw (past, drop_all oids k (ground arith), first_valid)
        | inl inside ↦ elim (Option-cases (get odb (get_or oids k []))) [
          | inl e ↦ rw (inside, e, step, drop-get_or oids k [] (ltb→lt _ _ inside), first_valid, e)
          | inr (value, e) ↦
              rw (inside, e, drop-get_or oids k [] (ltb→lt _ _ inside), first_valid, e)
        ]
      ]

  -- A place in ascending OIDs, and the place behind the OID that stands there.
  place_behind-at :
      (k : ℕ) → IsAscending oids → k < length oids → place_behind oids (get_or oids k []) ≡ suc k
  unfolding place_behind
  place_behind-at k a h =
      let step : k + 1 ≡ suc k = omega arith in
      rw (search_oid_position-at oids k a h, lt→ltb _ _ h, bytes_eq_refl (get_or oids k []), step)

  -- What `n` calls of `GetNext` answer, each for the OID of the one before, up to the first that
  -- answers no OID.
  pub follow : ℕ → Bytes → List GetNextBulkResult
  follow zero oid = []
  follow (suc n) oid = elim (get_next im odb oid).1 [
    | none ↦ []
    | some value ↦
        let next = (get_next im odb oid).0 in
        elim (is_empty next) [
          | true ↦ []
          | false ↦ (record { oid = next; value = value }) ∷ follow n next
        ]
  ]

  -- `follow` from a place of the list.
  abbrev follow_from : ℕ → Bytes × Option OidValue → List GetNextBulkResult
  follow_from n (next, none) = []
  follow_from n (next, some value) = elim (is_empty next) [
    | true ↦ []
    | false ↦ (record { oid = next; value = value }) ∷ follow n next
  ]

  follow_from-some :
      (n : ℕ) (next : Bytes) (value : OidValue)
      → is_empty next ≡ false
      → follow_from n (next, some value) ≡ (record { oid = next; value = value }) ∷ follow n next
  follow_from-some n next value e = rw (follow_from, e)

  -- An OID of the list is not empty, and is in no table.
  abbrev pub IsPlain : Bytes → Type 0
  IsPlain oid = (is_empty oid ≡ false) × (is_table_oid im oid ≡ false)

  follow-from :
      (n : ℕ) (oid : Bytes)
      → is_table_oid im oid ≡ false
      → follow (suc n) oid ≡ follow_from n (from (place_behind oids oid))
  unfolding follow get_next
  follow-from n oid plain = ground (arith, plain, get_next_plain-from oid)

  module _ (a : IsAscending oids) (plain : All IsPlain oids) where
    IsPlain-at : (k : ℕ) → k < length oids → IsPlain (get_or oids k [])
    IsPlain-at k h = All-get_or [] IsPlain oids k plain h

    -- The two lists agree from place `k` on.
    abbrev Agrees : ℕ → ℕ → Type 0
    Agrees n k = collect_loop odb (suc n) (drop k oids) ≡ follow_from n (from k)

    Agrees-past : (n k : ℕ) → length oids ≤ k → Agrees n k
    unfolding collect_loop first_valid
    Agrees-past n k h = rw (drop_all oids k h, first_valid)

    Agrees-step :
        (n k : ℕ)
        → k < length oids
        → collect_loop odb n (drop (suc k) oids) ≡ follow n (get_or oids k [])
        → Agrees n (suc k)
        → Agrees n k
    unfolding collect_loop
    Agrees-step n k lt behind skipped = elim (Option-cases (get odb (get_or oids k []))) [
      | inl e ↦
          rw
            (
              drop-get_or oids k [] lt,
              first_valid-none odb (get_or oids k []) (drop (suc k) oids) e,
              collect_loop,
              e,
            )
            skipped
      | inr (value, e) ↦
          let result : GetNextBulkResult = record { oid = get_or oids k []; value = value } in
          let collected : collect_loop odb (suc n) (drop k oids)
              ≡ result ∷ collect_loop odb n (drop (suc k) oids) =
            rw (drop-get_or oids k [] lt, collect_loop, e) in
          let here : from k ≡ (get_or oids k [], some value) = rw (
            drop-get_or oids k [] lt,
            first_valid-some odb (get_or oids k []) (drop (suc k) oids) e,
          ) in
          collected
          ∙ ap (λ rest. result ∷ rest) behind
          ∙ sym (
              ap (follow_from n) here
              ∙ follow_from-some n (get_or oids k []) value (IsPlain-at k lt).0)
    ]

    collect-behind :
        (n k : ℕ)
        → k < length oids
        → Agrees n (suc k)
        → collect_loop odb (suc n) (drop (suc k) oids) ≡ follow (suc n) (get_or oids k [])
    collect-behind n k lt agrees =
        agrees
        ∙ sym (rw (follow-from n (get_or oids k []) (IsPlain-at k lt).1, place_behind-at k a lt))

    collect-from : (n fuel k : ℕ) → length oids - k ≤ fuel → Agrees n k
    unfolding collect_loop first_valid follow
    collect-from n zero k h = Agrees-past n k (omega arith)
    collect-from zero (suc fuel) k h = elim (Bool-cases (ltb k (length oids))) [
      | inr past ↦ Agrees-past 0 k (ground arith)
      | inl inside ↦
          Agrees-step 0 k (ltb→lt _ _ inside) refl (collect-from 0 fuel (suc k) (omega arith))
    ]
    collect-from (suc n) (suc fuel) k h = elim (Bool-cases (ltb k (length oids))) [
      | inr past ↦ Agrees-past (suc n) k (ground arith)
      | inl inside ↦
          let lt = ltb→lt _ _ inside in
          Agrees-step (suc n) k lt
            (collect-behind n k lt (collect-from n fuel (suc k) (omega arith)))
            (collect-from (suc n) fuel (suc k) (omega arith))
    ]

    -- Over an index of ascending OIDs that are in no table, `GetNextBulk` of an OID that is in no
    -- table returns what repeated calls of `GetNext` answer, as many as the limit on repetitions allows.
    pub get_next_bulk-follow :
        (oid : Bytes) (n : ℕ)
        → n < 2 ^ 64
        → is_table_oid im oid ≡ false
        → get_next_bulk im odb oid n ≡ follow (limit_repeaters n) oid
    unfolding get_next_bulk get_next_bulk_regular
    get_next_bulk-follow oid n h outside =
        let k = place_behind oids oid in
        let m = limit_repeaters n - 1 in
        let whole : limit_repeaters n ≡ suc m = omega (arith, limit_repeaters_range n h) in
        rw (outside, whole)
          (collect-from m (length oids) k (omega arith) ∙ sym (follow-from m oid outside))
