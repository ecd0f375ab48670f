-- ===== src/WalkDiff/Agreement.antt =====
-- internal/walkdiff/diff.go: when two record files are identical.
use mathlib.Core.List.{
  Mem, map, mem-cons_self, mem-cons_of_mem, mem-append_left, mem-append_right, mem-map_of_mem,
  cons≢nil,
}
use go_snmpsim.Prelude.{
  ◌≡◌, ◌↔◌, refl, true, Option, none, some, List, [], ◌∷◌, Bytes, bytes_eq, bytes_eq_iff, Map,
  text_eq, lookup, length, All, arith, Option-cases, Bool-cases, inl, inr, ◌⊎◌, ◌==◌,
  lookup-Mem_keys, All-mem,
}
use native.Mathlib.Decide.{ℕ_discrete}
use mathlib.Core.List.Perm
use go_snmpsim.Sort.Sorted.{quick_sort_all-perm}
use go_snmpsim.SnmprecFormat.{Entry, sort_entries, no_entry, entry_less}
use go_snmpsim.WalkDiff.{
  Difference, identical, map_of, new_keys, all_keys, difference, diff_loop, compare_entries,
}

-- The type and the value of a record, if there is one.
abbrev pub content : Option Entry → Option (Bytes × Bytes)
content none = none
content (some e) = some (e.type, e.value)

difference_iff :
    (oid : Bytes) (left right : Option Entry)
    → (difference oid left right ≡ none) ↔ (content left ≡ content right)
unfolding difference
difference_iff oid none none = (λ h. refl, λ h. refl)
difference_iff oid none (some r) = (λ h. cc, λ h. cc)
difference_iff oid (some l) none = (λ h. cc, λ h. cc)
difference_iff oid (some l) (some r) =
    let types = bytes_eq_iff l.type r.type in
    let values = bytes_eq_iff l.value r.value in
    (λ h. ground (arith, types, values), λ h. ground (arith, types, values))

content_set : IsSet (Option (Bytes × Bytes))
content_set = hlevel ℕ_discrete

length_zero : (diffs : List Difference) → (length diffs == 0) ≡ true → diffs ≡ []
length_zero [] h = refl
length_zero (d ∷ diffs) h = absurd (ground arith)

All-every : {Q : Entry → Type 0} (entries : List Entry) → ((e : Entry) → Q e) → All Q entries
All-every [] h = tt
All-every (e ∷ entries) h = (h e, All-every entries h)

module _ (left right : Map Bytes Entry) where
  abbrev SameAt : Bytes → Type 0
  SameAt oid = content (lookup oid left) ≡ content (lookup oid right)

  SameAt-prop : (oid : Bytes) → IsProp (SameAt oid)
  SameAt-prop oid = content_set (content (lookup oid left)) (content (lookup oid right))

  diff_loop-nil :
      (entries : List Entry) → All (λ e. SameAt e.oid) entries → diff_loop left right entries ≡ []
  unfolding diff_loop
  diff_loop-nil [] h = refl
  diff_loop-nil (e ∷ entries) h =
      let equal = (difference_iff e.oid (lookup e.oid left) (lookup e.oid right)).1 h.0 in
      rw (diff_loop, equal, diff_loop-nil entries h.1)

  diff_loop-same :
      (entries : List Entry) → diff_loop left right entries ≡ [] → All (λ e. SameAt e.oid) entries
  unfolding diff_loop
  diff_loop-same [] h = tt
  diff_loop-same (e ∷ entries) h =
      let d = difference e.oid (lookup e.oid left) (lookup e.oid right) in
      elim (Option-cases d) [
        | inl none_here ↦ (
          (difference_iff e.oid (lookup e.oid left) (lookup e.oid right)).0 none_here,
          diff_loop-same entries (rw (diff_loop, none_here) at h),
        )
        | inr (found, some_here) ↦ absurd (cons≢nil (rw (diff_loop, some_here) at h))
      ]

  mem-new_keys :
      (m : Map Bytes Entry) (oid : Bytes) {e : Entry}
      → lookup oid left ≡ none
      → lookup oid m ≡ some e
      → Mem oid (new_keys left m)
  unfolding new_keys lookup
  mem-new_keys [] oid absent h = cc
  mem-new_keys ((key, e) ∷ m) oid absent h = elim (Bool-cases (bytes_eq key oid)) [
    | inl found ↦
        let same : key ≡ oid = (bytes_eq_iff key oid).0 found in
        let new : lookup key left ≡ none = rw same absent in
        rw (new_keys, new) (rw same mem-cons_self)
    | inr other ↦
        let rest = mem-new_keys m oid absent (rw other at h) in
        elim (Option-cases (lookup key left)) [
          | inl new ↦ rw (new_keys, new) (mem-cons_of_mem key rest)
          | inr (l, old) ↦ rw (new_keys, old) rest
        ]
  ]

  mem-all_keys :
      (oid : Bytes)
      → ((lookup oid left ≡ none) × (lookup oid right ≡ none)) ⊎ Mem oid (all_keys left right)
  unfolding all_keys
  mem-all_keys oid = elim (Option-cases (lookup oid left)) [
    | inr (l, found) ↦ inr (mem-append_left (new_keys left right) (lookup-Mem_keys oid left found))
    | inl absent ↦ elim (Option-cases (lookup oid right)) [
      | inl nowhere ↦ inl (absent, nowhere)
      | inr (r, found) ↦
          inr (mem-append_right (map (λ e. e.0) left) (mem-new_keys right oid absent found))
    ]
  ]

  abbrev bare : Bytes → Entry
  bare oid = record { oid = oid; type = []; value = [] }

  abbrev compared_entries : List Entry
  compared_entries = sort_entries (map bare (all_keys left right))

  mem-compared_entries :
      (oid : Bytes) → Mem oid (all_keys left right) → Mem (bare oid) compared_entries
  unfolding sort_entries
  mem-compared_entries oid m =
      (Perm.mem_iff {a = bare oid}
          (quick_sort_all-perm no_entry entry_less (map bare (all_keys left right)))).1
        (mem-map_of_mem bare m)

  same_everywhere : diff_loop left right compared_entries ≡ [] → (oid : Bytes) → SameAt oid
  same_everywhere h oid = elim (mem-all_keys oid) [
    | inl (absent, nowhere) ↦ rw (absent, nowhere)
    | inr m ↦
        All-mem {Q = λ e. SameAt e.oid} (λ e. SameAt-prop e.oid) compared_entries (bare oid)
          (diff_loop-same compared_entries h) (mem-compared_entries oid m)
  ]

  no_diffs : ((oid : Bytes) → SameAt oid) → diff_loop left right compared_entries ≡ []
  no_diffs h = diff_loop-nil compared_entries (All-every compared_entries (λ e. h e.oid))

-- Two files are reported as identical exactly if for every OID the last record of the one and the last
-- record of the other have the same type and value, or both files have no record.
pub compare_entries-identical :
    (left right : List Entry)
    → let same = λ (oid : Bytes).
      content (lookup oid (map_of [] left)) ≡ content (lookup oid (map_of [] right)) in
      (identical (compare_entries left right) ≡ true) ↔ ((oid : Bytes) → same oid)
unfolding compare_entries identical
compare_entries-identical left right =
    let left_map = map_of [] left in
    let right_map = map_of [] right in
    (
      λ h. same_everywhere left_map right_map (length_zero _ h),
      λ h. rw (no_diffs left_map right_map h),
    )
