-- ===== src/Recorder/Rounds.antt =====
-- internal/recorder/record.go: one round of a walk.
use go_snmpsim.Prelude.{
  suc, ◌≤◌, ◌≡◌, refl, sym, true, false, Option, none, some, List, [], ◌∷◌, Bytes, codes, bytes_eq,
  text_eq, Map, lookup, put, length, All, arith, Bool-cases, inl, inr, ◌⊎◌,
}
use go_snmpsim.Strconv.Substrings.{trim_prefix}
use go_snmpsim.SnmprecFormat.{Entry, entry_from_pdu}
use go_snmpsim.Recorder.{
  done, Answer, failed, no_variables, variable, WalkEnd, Round, ended, onward, converted,
  is_in_subtree, should_exclude, is_known, ends_walk, take_answer,
}

pub Round-cases :
    (r : Round)
    → ((end : WalkEnd) × (r ≡ ended end))
      ⊎ ((oid : Bytes) × (more : Map Bytes Entry) × (r ≡ onward oid more))
Round-cases (ended end) = inl (end, refl)
Round-cases (onward oid more) = inr (oid, more, refl)

pub put-All :
    {A : Type 0} (P : Bytes × A → Type 0) (k : Bytes) (a : A) (m : Map Bytes A)
    → P (k, a)
    → All P m
    → All P (put k a m)
unfolding put
put-All P k a [] p h = (p, tt)
put-All P k a ((j, b) ∷ m) p h = elim (Bool-cases (bytes_eq j k)) [
  | inl e ↦ rw (put, e) (p, h.1)
  | inr e ↦ rw (put, e) (h.0, put-All P k a m p h.1)
]

pub length-put :
    {A : Type 0} (k : Bytes) (a : A) (m : Map Bytes A) → length (put k a m) ≤ suc (length m)
unfolding put
length-put k a [] = omega arith
length-put k a ((j, b) ∷ m) = elim (Bool-cases (bytes_eq j k)) [
  | inl e ↦ rw (put, e) (omega arith)
  | inr e ↦ rw (put, e) (let below = length-put k a m in omega arith)
]

-- A round that goes on keeps the entries, or puts one under an OID below the root that is not excluded.
module _ (root : Bytes) (exs : List Bytes) (current oid : Bytes)
    (entries more : Map Bytes Entry) where
  abbrev pub Kept : Type 0
  Kept = more ≡ entries

  abbrev pub Put : Type 0
  Put =
      (entry : Entry) × (more ≡ put oid entry entries)
      × (is_in_subtree oid root ≡ true)
      × (should_exclude oid exs ≡ false)

  onward_injective :
      (a b : Bytes) (m n : Map Bytes Entry) → onward a m ≡ onward b n → (a ≡ b) × (m ≡ n)
  onward_injective a b m n e = (cc, cc)

  converted-onward :
      (at : Bytes) (o : Option Entry)
      → converted at entries o ≡ onward oid more
      → (entry : Entry) × (at ≡ oid) × (more ≡ put oid entry entries)
  converted-onward at none e = cc
  converted-onward at (some entry) e =
      let (is, put_at) = onward_injective at oid (put at entry entries) more e in
      (entry, is, sym (rw is at put_at))

  pub take_answer-onward :
      (answer : Answer) → take_answer root exs current entries answer ≡ onward oid more → Kept ⊎ Put
  unfolding take_answer
  take_answer-onward failed e = cc
  take_answer-onward no_variables e = cc
  take_answer-onward (variable name ber value) e =
      let at = trim_prefix name (codes ".") in
      elim (Bool-cases (ends_walk ber)) [
        | inl last ↦ let no : ended done ≡ onward oid more = rw (take_answer, last) at e in cc
        | inr going ↦ elim (Bool-cases (is_in_subtree at root)) [
          | inr out ↦
              let no : ended done ≡ onward oid more = rw (take_answer, going, out) at e in cc
          | inl inside ↦ elim (Bool-cases (should_exclude at exs)) [
            | inl excluded ↦
                let go : onward at entries ≡ onward oid more =
                  rw (take_answer, going, inside, excluded) at e in
                inl (sym (onward_injective at oid entries more go).1)
            | inr kept_in ↦ elim (Bool-cases (is_known (lookup at entries))) [
              | inl known ↦
                  let go : onward at entries ≡ onward oid more =
                    rw (take_answer, going, inside, kept_in, known) at e in
                  inl (sym (onward_injective at oid entries more go).1)
              | inr new ↦
                  let go : converted at entries (entry_from_pdu at ber value) ≡ onward oid more =
                    rw (take_answer, going, inside, kept_in, new) at e in
                  let (entry, is, put_at) = converted-onward at (entry_from_pdu at ber value) go in
                  inr (entry, put_at, rw is at inside, rw is at kept_in)
            ]
          ]
        ]
      ]
