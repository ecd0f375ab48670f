-- ===== src/Recorder/Agents.antt =====
-- internal/recorder/record.go with internal/store/database.go: the walk of an agent that answers from an
-- OID database.
use mathlib.Core.List.{foldl}
use go_snmpsim.Prelude.{
  ℕ, zero, suc, ◌-◌, ◌≤◌, ◌<◌, ◌≡◌, refl, sym, ap, ◌∙◌, Bool, true, false, not, none, some, List,
  [], ◌∷◌, Bytes, is_empty, text_eq, Map, lookup, length, get_or, get_or_past, drop, drop-get_or,
  drop_all, All, All-get_or, arith, Bool-cases, inl, inr, if◌then◌else◌, ltb, ltb→lt, ℕ_trichotomy,
  lookup-nil, ◌&&◌,
}
use go_snmpsim.Oid.{is_oid_less}
use go_snmpsim.Oid.Render.{IsCanonical}
use go_snmpsim.Snmp.{OidValue, nil, end_of_mib_view}
use go_snmpsim.SnmprecFormat.{Entry, entry_from_pdu}
use go_snmpsim.Positions.Ascending.{
  Before, IsAscending, entries-Before, Before-trans, entry-IsCanonical,
}
use go_snmpsim.Database.{OidDatabase, get_next}
use go_snmpsim.Database.Next.{IsNext, entry, end_of_mib, get_next-IsNext}
use go_snmpsim.Database.Walk.{get_next-at}
use go_snmpsim.Recorder.{
  Client, variable, done, onward, is_in_subtree, should_exclude, is_known, ends_walk, take_answer,
  walk_loop, walk_root,
}
use go_snmpsim.Recorder.Noted.{note, trim_dot, is_among, lookup-note}

-- An agent with a database, and the value that it has for each OID.
abbrev pub database_client : {W : Type 0} → OidDatabase → (Bytes → OidValue) → Client W
database_client odb value_of oid w =
    let next = get_next odb oid in
    (
      if is_empty next
          then variable oid end_of_mib_view nil
          else variable (b'.' ∷ next) (value_of next).type (value_of next).value,
      w,
    )

-- The first entries for which the test holds.
abbrev pub take_while : (Bytes → Bool) → List Bytes → List Bytes
take_while p [] = []
take_while p (x ∷ xs) = let rest = take_while p xs in if p x then x ∷ rest else []

-- The entries behind the target.
abbrev pub behind : Bytes → List Bytes → List Bytes
behind target [] = []
behind target (x ∷ xs) =
    let rest = behind target xs in if is_oid_less target x then x ∷ rest else rest

behind-drop :
    (target : Bytes) (xs : List Bytes) (k : ℕ)
    → ((j : ℕ) → j < k → j < length xs → is_oid_less target (get_or xs j []) ≡ false)
    → ((j : ℕ) → k ≤ j → j < length xs → Before target (get_or xs j []))
    → behind target xs ≡ drop k xs
behind-drop target [] zero low high = refl
behind-drop target [] (suc k) low high = refl
behind-drop target (x ∷ xs) zero low high = rw (high 0 (omega arith) (omega arith)) (
    ap (λ t. x ∷ t)
      (behind-drop target xs 0 (λ j lt inside. absurd (omega arith))
        (λ j le inside. high (suc j) (omega arith) (omega arith))))
behind-drop target (x ∷ xs) (suc k) low high = rw (low 0 (omega arith) (omega arith)) (
    behind-drop target xs k (λ j lt inside. low (suc j) (omega arith) (omega arith))
      (λ j le inside. high (suc j) (omega arith) (omega arith)))

module _ (odb : OidDatabase) (a : IsAscending odb.sorted_oids)
    (named : All (λ s. is_empty s ≡ false) odb.sorted_oids) (value_of : Bytes → OidValue)
    (entry_of : Bytes → Entry) (typed : (oid : Bytes) → ends_walk (value_of oid).type ≡ false)
    (converts : (oid : Bytes)
      → entry_from_pdu oid (value_of oid).type (value_of oid).value ≡ some (entry_of oid))
    (exs : List Bytes) (root : Bytes) where
  abbrev oids : List Bytes
  oids = odb.sorted_oids

  abbrev at : ℕ → Bytes
  at i = get_or oids i []

  abbrev inside : Bytes → Bool
  inside oid = is_in_subtree oid root

  at_named : (k : ℕ) → k < length oids → is_empty (at k) ≡ false
  at_named k h = All-get_or [] (λ s. is_empty s ≡ false) oids k named h

  -- A round for an entry below the root.
  take_answer-noted :
      (current oid : Bytes) (entries : Map Bytes Entry)
      → inside oid ≡ true
      → take_answer root exs current entries
          (variable (b'.' ∷ oid) (value_of oid).type (value_of oid).value)
        ≡ onward oid (note exs entry_of entries oid)
  unfolding take_answer
  take_answer-noted current oid entries below = elim (Bool-cases (should_exclude oid exs)) [
    | inl out ↦ rw (take_answer, typed oid, trim_dot oid, below, out) refl
    | inr kept ↦ elim (Bool-cases (is_known (lookup oid entries))) [
      | inl known ↦ rw (take_answer, typed oid, trim_dot oid, below, kept, known) refl
      | inr new ↦ rw (take_answer, typed oid, trim_dot oid, below, kept, new, converts oid) refl
    ]
  ]

  -- A round behind the root finds the entries behind it.
  behind-at :
      IsCanonical root
      → IsNext oids root (get_next odb root)
      → (k : ℕ) × (get_next odb root ≡ at k) × (behind root oids ≡ drop k oids)
  behind-at c (entry i h e b low) = (
    i,
    e,
    behind-drop root oids i (λ j lt in_range. low j lt)
        (λ j le in_range. elim (ℕ_trichotomy i j) [
          | inl lt ↦
              Before-trans root (at i) (at j) c (entry-IsCanonical oids a root c i h)
                (entry-IsCanonical oids a root c j in_range) (rw (← e) b)
                (entries-Before oids a root c i j lt in_range)
          | inr (inl same) ↦ rw (← same, ← e) b
          | inr (inr gt) ↦ absurd (omega arith)
        ]),
  )
  behind-at c (end_of_mib e low) = (
    length oids,
    e ∙ sym (get_or_past oids (length oids) [] (omega arith)),
    behind-drop root oids (length oids) (λ j lt in_range. low j in_range)
        (λ j le in_range. absurd (omega arith)),
  )

  module _ {W : Type 0} where
    walk_loop-drop :
        (fuel k : ℕ) (current : Bytes) (entries : Map Bytes Entry) (w : W)
        → length oids - k < fuel
        → get_next odb current ≡ at k
        → walk_loop (database_client odb value_of) exs 0 fuel root current entries w
          ≡ some (done, foldl (note exs entry_of) entries (take_while inside (drop k oids)), w)
    unfolding walk_loop
    walk_loop-drop zero k current entries w h e = absurd (omega arith)
    walk_loop-drop (suc fuel) k current entries w h e = elim (Bool-cases (ltb k (length oids))) [
      | inr last ↦
          let past : length oids ≤ k = ground arith in
          let nothing : get_next odb current ≡ [] = e ∙ get_or_past oids k [] past in
          rw (walk_loop, nothing, drop_all oids k past) refl
      | inl more ↦
          let lt = ltb→lt _ _ more in
          elim (Bool-cases (inside (at k))) [
            | inl below ↦
                rw
                  (
                    walk_loop,
                    e,
                    at_named k lt,
                    take_answer-noted current (at k) entries below,
                    drop-get_or oids k [] lt,
                    below,
                  )
                  (walk_loop-drop fuel (suc k) (at k) (note exs entry_of entries (at k)) w
                    (omega arith) (get_next-at odb a k lt))
            | inr out ↦
                rw
                  (
                    walk_loop,
                    e,
                    at_named k lt,
                    take_answer,
                    typed (at k),
                    trim_dot (at k),
                    drop-get_or oids k [] lt,
                    out,
                  )
                  refl
          ]
    ]

    walk_root_noted :
        (w : W)
        → IsCanonical root
        → walk_root (database_client odb value_of) exs 0 (suc (length oids)) root [] w
          ≡ some (done, foldl (note exs entry_of) [] (take_while inside (behind root oids)), w)
    unfolding walk_root
    walk_root_noted w c =
        let (k, e, same) = behind-at c (get_next-IsNext odb a root c) in
        rw same (walk_loop-drop (suc (length oids)) k root [] w (omega arith) e)

-- A walk of an agent with a database of ascending OIDs ends without an error, after at most one round for
-- each OID and one more, and its entries are those of the OIDs that come behind the root, as long as
-- they are below it, without the excluded ones. The root is in canonical form, there is no limit, no OID is
-- empty, no value has a type that ends a walk, and each value can be converted.
pub walk_root-database :
    {W : Type 0} (odb : OidDatabase) (value_of : Bytes → OidValue) (entry_of : Bytes → Entry)
    (exs : List Bytes) (root : Bytes) (w : W)
    → IsAscending odb.sorted_oids
    → All (λ s. is_empty s ≡ false) odb.sorted_oids
    → ((oid : Bytes) → ends_walk (value_of oid).type ≡ false)
    → ((oid : Bytes)
        → entry_from_pdu oid (value_of oid).type (value_of oid).value ≡ some (entry_of oid))
    → IsCanonical root
    → (entries : Map Bytes Entry) × (walk_root
          (database_client odb value_of)
          exs
          0
          (suc (length odb.sorted_oids))
          root
          []
          w
        ≡ some (done, entries, w))
      × ((oid : Bytes)
          → let walked = take_while (λ s. is_in_subtree s root) (behind root odb.sorted_oids) in
            lookup oid entries ≡ (
              if is_among oid walked && not (should_exclude oid exs)
              then some (entry_of oid)
              else none))
walk_root-database odb value_of entry_of exs root w a named typed converts c =
    let walked = take_while (λ s. is_in_subtree s root) (behind root odb.sorted_oids) in
    (
      foldl (note exs entry_of) [] walked,
      walk_root_noted odb a named value_of entry_of typed converts exs root w c,
      λ oid. rw lookup-nil at (lookup-note exs entry_of walked [] oid),
    )
