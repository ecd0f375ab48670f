-- ===== src/Recorder/Walks.antt =====
-- internal/recorder/record.go: what a walk records, whatever the agent answers.
use go_snmpsim.Prelude.{
  ℕ, zero, suc, ◌^◌, ◌≤◌, ◌<◌, ◌≡◌, refl, Bool, true, false, not, ◌&&◌, ◌||◌, Option, none, some,
  List, [], ◌∷◌, Bytes, codes, text_eq, Map, length, All, arith, Bool-cases, Option-cases, inl, inr,
}
use go_snmpsim.Oid.{int_less}
use go_snmpsim.Strconv.Substrings.{trim_prefix}
use go_snmpsim.SnmprecFormat.{Entry}
use go_snmpsim.Recorder.{
  Client, done, WalkEnd, is_in_subtree, should_exclude, is_full, take_answer, walk_loop, walk_root,
  walk_roots, add_error,
}
use go_snmpsim.Recorder.Rounds.{Round-cases, put-All, length-put, take_answer-onward}

-- The OID lies below one of the roots, each without its leading dot.
abbrev pub is_below : Bytes → List Bytes → Bool
is_below oid [] = false
is_below oid (root ∷ roots) = is_in_subtree oid (trim_prefix root (codes ".")) || is_below oid roots

or_true : (b : Bool) → (b || true) ≡ true
or_true b = ground arith

-- At most `m` entries, for a limit above 0.
abbrev pub Within : ℕ → Map Bytes Entry → Type 0
Within m entries = int_less 0 m ≡ true → length entries ≤ m

not_full :
    (m n : ℕ)
    → m < 2 ^ 64
    → int_less 0 m ≡ true
    → n ≤ m
    → (int_less 0 m && not (int_less n m)) ≡ false
    → n < m
not_full m n fits positive le h = ground arith

module _ {W : Type 0} (client : Client W) (exs : List Bytes) (max_oids : ℕ)
    (fits : max_oids < 2 ^ 64) (P : Bytes × Entry → Type 0) where
  -- A predicate on the entries that each new one meets holds of all.
  walk_loop_sound :
      (fuel : ℕ) (root current : Bytes) (entries : Map Bytes Entry) (w : W) {end : WalkEnd}
      {more : Map Bytes Entry} {v : W}
      → ((oid : Bytes) (entry : Entry)
          → is_in_subtree oid root ≡ true
          → should_exclude oid exs ≡ false
          → P (oid, entry))
      → walk_loop client exs max_oids fuel root current entries w ≡ some (end, more, v)
      → All P entries
      → Within max_oids entries
      → All P more × Within max_oids more
  unfolding walk_loop
  walk_loop_sound zero root current entries w new e all within = cc
  walk_loop_sound (suc fuel) root current entries w {end} {more} {v} new e all within =
      elim (Bool-cases (is_full max_oids entries)) [
        | inl full ↦
            let at : ◌≡◌ {A = Option (WalkEnd × Map Bytes Entry × W)} (some (done, entries, w))
                (some (end, more, v)) =
              rw (walk_loop, full) at e in
            let is : entries ≡ more = cc in (rw is at all, rw is at within)
        | inr room ↦
            elim (Round-cases (take_answer root exs current entries (client current w).0)) [
              | inl (last, f) ↦
                  let at : ◌≡◌ {A = Option (WalkEnd × Map Bytes Entry × W)}
                      (some (last, entries, (client current w).1)) (some (end, more, v)) =
                    rw (walk_loop, room, f) at e in
                  let is : entries ≡ more = cc in (rw is at all, rw is at within)
              | inr (oid, next, f) ↦
                  let rest : walk_loop client exs max_oids fuel root oid next (client current w).1
                      ≡ some (end, more, v) =
                    rw (walk_loop, room, f) at e in
                  elim (take_answer-onward root exs current oid entries next (client current w).0
                    f) [
                      | inl kept ↦
                          walk_loop_sound fuel root oid next (client current w).1 new rest
                            (rw kept all) (rw kept within)
                      | inr (entry, put_at, inside, kept_in) ↦
                          walk_loop_sound fuel root oid next (client current w).1 new rest
                            (rw put_at
                              (put-All P oid entry entries (new oid entry inside kept_in) all))
                            (λ positive. rw put_at (
                              let below =
                                not_full max_oids (length entries) fits positive (within positive)
                                  room in
                              let grown = length-put oid entry entries in omega arith))
                    ]
            ]
      ]

  walk_roots_sound :
      (fuel : ℕ) (roots : List Bytes) (entries : Map Bytes Entry) (errors : List WalkEnd) (w : W)
      {more : Map Bytes Entry} {ends : List WalkEnd} {v : W}
      → ((oid : Bytes) (entry : Entry)
          → is_below oid roots ≡ true
          → should_exclude oid exs ≡ false
          → P (oid, entry))
      → walk_roots client exs max_oids fuel roots entries errors w ≡ some (more, ends, v)
      → All P entries
      → Within max_oids entries
      → All P more × Within max_oids more
  unfolding walk_roots walk_root
  walk_roots_sound fuel [] entries errors w {more} {ends} {v} new e all within =
      let at : ◌≡◌ {A = Option (Map Bytes Entry × List WalkEnd × W)} (some (entries, errors, w))
          (some (more, ends, v)) =
        e in
      let is : entries ≡ more = cc in (rw is at all, rw is at within)
  walk_roots_sound fuel (root ∷ roots) entries errors w {more} {ends} {v} new e all within =
      let top = trim_prefix root (codes ".") in
      elim (Bool-cases (is_full max_oids entries)) [
        | inl full ↦
            let at : ◌≡◌ {A = Option (Map Bytes Entry × List WalkEnd × W)}
                (some (entries, errors, w)) (some (more, ends, v)) =
              rw (walk_roots, full) at e in
            let is : entries ≡ more = cc in (rw is at all, rw is at within)
        | inr room ↦ elim (Option-cases (walk_root client exs max_oids fuel top entries w)) [
          | inl f ↦
              let no : ◌≡◌ {A = Option (Map Bytes Entry × List WalkEnd × W)} none
                  (some (more, ends, v)) =
                rw (walk_roots, room, f) at e in
              cc
          | inr ((end, next, u), f) ↦
              let rest : walk_roots client exs max_oids fuel roots next
                    (add_error client exs max_oids end errors) u
                  ≡ some (more, ends, v) =
                rw (walk_roots, room, f) at e in
              let (all_next, within_next) =
                walk_loop_sound fuel top top entries w
                  (λ oid entry inside kept_in. new oid entry (rw inside refl) kept_in) f all
                  within in
              walk_roots_sound fuel roots next (add_error client exs max_oids end errors) u
                (λ oid entry below kept_in.
                  new oid entry (rw below (or_true (is_in_subtree oid top))) kept_in)
                rest all_next within_next
        ]
      ]

-- Whatever the agent answers, if the walk over the roots ends: its entries are under OIDs that lie below
-- one of the roots and are not excluded, and if the limit, a number of 64 bits, is above 0 as an int64,
-- there are at most as many as the limit.
pub walk_roots-recorded :
    {W : Type 0} (client : Client W) (exs : List Bytes) (max_oids fuel : ℕ) (roots : List Bytes)
    (w : W) {entries : Map Bytes Entry} {errors : List WalkEnd} {v : W}
    → max_oids < 2 ^ 64
    → walk_roots client exs max_oids fuel roots [] [] w ≡ some (entries, errors, v)
    → All (λ (oid, entry). (is_below oid roots ≡ true) × (should_exclude oid exs ≡ false)) entries
      × Within max_oids entries
walk_roots-recorded client exs max_oids fuel roots w fits e =
    walk_roots_sound client exs max_oids fits
      (λ (oid, entry). (is_below oid roots ≡ true) × (should_exclude oid exs ≡ false)) fuel roots []
      [] w (λ oid entry below kept_in. (below, kept_in)) e tt (λ positive. omega arith)
