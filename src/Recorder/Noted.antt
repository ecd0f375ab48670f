-- ===== src/Recorder/Noted.antt =====
-- internal/recorder/record.go: what recording OIDs one after the other leaves in the entries.
use mathlib.Core.List.{foldl}
use go_snmpsim.Prelude.{
  ◌≡◌, refl, ◌∙◌, Bool, true, false, not, Option, none, some, List, [], ◌∷◌, Bytes, codes, text_eq,
  Map, lookup, put, arith, Bool-cases, inl, inr, if◌then◌else◌, lookup-put, lookup-put_self,
  bytes_eq, bytes_eq_refl, bytes_eq_iff, ◌&&◌,
}
use go_snmpsim.Strconv.Substrings.{trim_prefix}
use go_snmpsim.SnmprecFormat.{Entry}
use go_snmpsim.Recorder.{should_exclude, is_known}

-- What recording an OID does to the entries.
abbrev pub note : List Bytes → (Bytes → Entry) → Map Bytes Entry → Bytes → Map Bytes Entry
note exs entry_of entries oid =
    if should_exclude oid exs
    then entries
    else if is_known (lookup oid entries)
    then entries
    else put oid (entry_of oid) entries

pub trim_dot : (s : Bytes) → trim_prefix (b'.' ∷ s) (codes ".") ≡ s
unfolding trim_prefix
trim_dot s = refl

abbrev pub is_among : Bytes → List Bytes → Bool
is_among oid [] = false
is_among oid (x ∷ xs) = let rest = is_among oid xs in if bytes_eq x oid then true else rest

known_or_none : (o : Option Entry) → o ≡ (if is_known o then o else none)
known_or_none none = refl
known_or_none (some kept) = refl

and_false : (b : Bool) → (b && false) ≡ false
and_false b = ground arith

pub lookup-note :
    (exs : List Bytes) (entry_of : Bytes → Entry) (xs : List Bytes) (m : Map Bytes Entry)
    (oid : Bytes)
    → lookup oid (foldl (note exs entry_of) m xs) ≡ (
        if is_known (lookup oid m)
        then lookup oid m
        else if is_among oid xs && not (should_exclude oid exs)
        then some (entry_of oid)
        else none)
lookup-note exs entry_of [] m oid = known_or_none (lookup oid m)
lookup-note exs entry_of (x ∷ xs) m oid =
    lookup-note exs entry_of xs (note exs entry_of m x) oid ∙ elim (Bool-cases (bytes_eq x oid)) [
      | inr other ↦ elim (Bool-cases (should_exclude x exs)) [
        | inl out ↦ rw (out, other) refl
        | inr kept ↦ elim (Bool-cases (is_known (lookup x m))) [
          | inl known ↦ rw (kept, known, other) refl
          | inr new ↦ rw (kept, new, other, lookup-put, other) refl
        ]
      ]
      | inl same ↦
          let is : x ≡ oid = (bytes_eq_iff x oid).0 same in
          elim (Bool-cases (should_exclude oid exs)) [
            | inl out ↦ rw (is, out, bytes_eq_refl oid, and_false (is_among oid xs)) refl
            | inr kept ↦ elim (Bool-cases (is_known (lookup oid m))) [
              | inl known ↦ rw (is, kept, known, known) refl
              | inr new ↦ rw (is, kept, new, lookup-put_self, bytes_eq_refl oid) refl
            ]
          ]
    ]
