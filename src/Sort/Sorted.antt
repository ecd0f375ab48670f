-- ===== src/Sort/Sorted.antt =====
-- internal/store/database.go: what `quickSortOIDs` does to a range of a slice.
use mathlib.Core.List.Perm
use go_snmpsim.Prelude.{
  ℕ, zero, suc, ◌+◌, ◌-◌, ◌≤◌, ◌<◌, ◌≡◌, refl, ◌∙◌, ◌⊎◌, inl, inr, Bool, true, false, List, Perm,
  length, length-perm, get_or, arith, ltb, Bool-cases, ℕ_trichotomy,
}
use go_snmpsim.Sort.{partition, quick_sort, quick_sort_all}
use go_snmpsim.Sort.Order.{IsOrder, asym, above_trans, InRange, IsSorted}
use go_snmpsim.Sort.Partition.{
  IsPartition, partition-IsPartition, partition-perm, partition-InRange,
}

module _ {ℓ} {A : Type ℓ} (default : A) (less : A → A → Bool) (P : A → Type 0) where
  -- What a sort of the range does to a slice.
  pub record Sorts (xs : List A) (low stop : ℕ) (ys : List A) : Type (ℓ ⊔ 1) where
    pub perm : Perm ys xs
    pub outside : (i : ℕ) → (i < low) ⊎ (stop ≤ i) → get_or ys i default ≡ get_or xs i default
    pub keeps : (Q : A → Type 0) → InRange default Q xs low stop → InRange default Q ys low stop
    pub sorted : InRange default P xs low stop → IsSorted default less ys low stop

  short-Sorts : (xs : List A) (low stop : ℕ) → stop ≤ low + 1 → Sorts xs low stop xs
  short-Sorts xs low stop h = record {
    perm = Perm.refl xs;
    outside = λ i p. refl;
    keeps = λ Q every. every;
    sorted = λ every i j a b c. absurd (omega arith);
  }

  module _ (o : IsOrder P less) (xs ys zs : List A) (low stop : ℕ) (lt : low + 1 < stop)
      (fits : stop ≤ length xs) where
    abbrev r : ℕ × List A
    r = partition default less xs low (stop - 1)

    module _ (left : Sorts r.1 low r.0 ys) (right : Sorts ys (r.0 + 1) stop zs) where
      part : IsPartition default less xs low (stop - 1) r.0 r.1
      part = partition-IsPartition default less xs low (stop - 1) (omega arith) (omega arith)

      abbrev at : List A → ℕ → A
      at l i = get_or l i default

      up_to_place : (i : ℕ) → i ≤ r.0 → at zs i ≡ at ys i
      up_to_place i h = right.outside i (inl (omega arith))

      from_place : (i : ℕ) → r.0 ≤ i → at ys i ≡ at r.1 i
      from_place i h = left.outside i (inr h)

      before_place : (Q : A → Type 0) → InRange default Q r.1 low r.0 → InRange default Q zs low r.0
      before_place Q every i a b = rw (up_to_place i (omega arith)) (left.keeps Q every i a b)

      behind_place :
          (Q : A → Type 0)
          → InRange default Q r.1 (r.0 + 1) stop
          → InRange default Q zs (r.0 + 1) stop
      behind_place Q every = right.keeps Q (λ i a b. rw (from_place i (omega arith)) (every i a b))

      at_place : at zs r.0 ≡ at r.1 r.0
      at_place = up_to_place r.0 (omega arith) ∙ from_place r.0 (omega arith)

      -- What holds of each entry of the range after the partition holds after the two sorts.
      parts_keep : (Q : A → Type 0) → InRange default Q r.1 low stop → InRange default Q zs low stop
      parts_keep Q every i a b = elim (ℕ_trichotomy i r.0) [
        | inl lt_place ↦
            before_place Q (λ k c d. every k c (omega (arith, part.to_high))) i a lt_place
        | inr (inl here) ↦
            rw (here, at_place) (every r.0 (part.from_low) (omega (arith, part.to_high)))
        | inr (inr gt_place) ↦
            behind_place Q (λ k c d. every k (omega (arith, part.from_low)) d) i (omega arith) b
      ]

      range_keeps :
          (Q : A → Type 0) → InRange default Q xs low stop → InRange default Q r.1 low stop
      range_keeps Q every i a b =
          partition-InRange default less xs low (stop - 1) (omega arith) (omega arith) Q
            (λ k c d. every k c (omega arith)) i a (omega arith)

      module _ (every : InRange default P xs low stop) where
        all_r : InRange default P r.1 low stop
        all_r = range_keeps P every

        all_z : InRange default P zs low stop
        all_z = parts_keep P all_r

        place_low : low ≤ r.0
        place_low = part.from_low

        place_stop : r.0 < stop
        place_stop = omega (arith, part.to_high)

        below : InRange default (λ x. less x (at zs r.0) ≡ true) zs low r.0
        below = rw at_place (before_place (λ x. less x (at r.1 r.0) ≡ true) part.below)

        above : InRange default (λ x. less x (at zs r.0) ≡ false) zs (r.0 + 1) stop
        above = rw at_place (
            behind_place (λ x. less x (at r.1 r.0) ≡ false) (λ k d e. part.above k d (omega arith)))

        sorted_left : IsSorted default less ys low r.0
        sorted_left = left.sorted (λ k d e. all_r k d (omega (arith, place_stop)))

        sorted_right : IsSorted default less zs (r.0 + 1) stop
        sorted_right =
            right.sorted
              (λ k d e. rw (from_place k (omega arith)) (all_r k (omega (arith, place_low)) e))

        -- The pivot's place lies between the two entries, or is that of one of them.
        across_place :
            (i j : ℕ)
            → low ≤ i
            → i < j
            → j < stop
            → i ≤ r.0
            → r.0 ≤ j
            → less (at zs j) (at zs i) ≡ false
        across_place i j a b c d e = elim (ℕ_trichotomy i r.0) [
          | inl lt_place ↦ elim (ℕ_trichotomy j r.0) [
            | inl f ↦ absurd (omega arith)
            | inr (inl here) ↦ rw here (
                asym o _ _ (all_z i a (omega arith)) (all_z r.0 place_low place_stop)
                  (below i a lt_place))
            | inr (inr f) ↦
                above_trans o _ _ _ (all_z i a (omega arith)) (all_z r.0 place_low place_stop)
                  (all_z j (omega arith) c) (below i a lt_place) (above j (omega arith) c)
          ]
          | inr (inl here) ↦ rw here (above j (omega arith) c)
          | inr (inr f) ↦ absurd (omega arith)
        ]

        long_sorted : IsSorted default less zs low stop
        long_sorted i j a b c = elim (ℕ_trichotomy j r.0) [
          | inl f ↦
              rw (up_to_place i (omega arith), up_to_place j (omega arith)) (sorted_left i j a b f)
          | inr (inl here) ↦ across_place i j a b c (omega arith) (omega arith)
          | inr (inr f) ↦ elim (ℕ_trichotomy i r.0) [
            | inl g ↦ across_place i j a b c (omega arith) (omega arith)
            | inr (inl g) ↦ across_place i j a b c (omega arith) (omega arith)
            | inr (inr g) ↦ sorted_right i j (omega arith) b c
          ]
        ]

      long-Sorts : Sorts xs low stop zs
      long-Sorts = record {
        perm = Perm.trans right.perm (
            Perm.trans left.perm
              (partition-perm default less xs low (stop - 1) (omega arith) (omega arith)));
        outside = λ i p.
            ground
              (arith, right.outside i, left.outside i, part.outside i, part.from_low, part.to_high);
        keeps = λ Q every. parts_keep Q (range_keeps Q every);
        sorted = long_sorted;
      }

  quick_sort-Sorts :
      IsOrder P less
      → (fuel : ℕ) (xs : List A) (low stop : ℕ) → stop - low ≤ fuel
      → stop ≤ length xs
      → Sorts xs low stop (quick_sort default less fuel xs low stop)
  unfolding quick_sort
  quick_sort-Sorts o zero xs low stop h k = short-Sorts xs low stop (omega arith)
  quick_sort-Sorts o (suc fuel) xs low stop h k = elim (Bool-cases (ltb (low + 1) stop)) [
    | inl more ↦
        let lt : low + 1 < stop = ground arith in
        let p = partition default less xs low (stop - 1) in
        let s = partition-IsPartition default less xs low (stop - 1) (omega arith) (omega arith) in
        let left =
          quick_sort-Sorts o fuel p.1 low p.0 (omega (arith, s.to_high))
            (omega (arith, s.to_high, s.same_length)) in
        let ys = quick_sort default less fuel p.1 low p.0 in
        let right =
          quick_sort-Sorts o fuel ys (p.0 + 1) stop (omega (arith, s.from_low))
            (omega (arith, length-perm left.perm, s.same_length)) in
        rw (more, quick_sort) (long-Sorts o xs ys _ low stop lt k left right)
    | inr done ↦ rw (done, quick_sort) (short-Sorts xs low stop (ground arith))
  ]

  -- If the comparison is a strict order on the values with a property, a sort of the whole slice by
  -- quicksort permutes it, and if all its entries have the property, none is below an earlier one.
  pub quick_sort_all-Sorts :
      IsOrder P less → (xs : List A) → Sorts xs 0 (length xs) (quick_sort_all default less xs)
  unfolding quick_sort_all
  quick_sort_all-Sorts o xs =
      quick_sort-Sorts o (length xs) xs 0 (length xs) (omega arith) (omega arith)

-- Under any comparison, quicksort permutes a slice.
pub quick_sort_all-perm {ℓ} :
    {A : Type ℓ} (default : A) (less : A → A → Bool) (xs : List A)
    → Perm (quick_sort_all default less xs) xs
quick_sort_all-perm default less xs =
    let trivial : IsOrder (λ x. ⊥) less = record {
      irrefl = λ x p. absurd p;
      trans = λ x y z p q r h k. absurd p;
    } in
    (quick_sort_all-Sorts default less (λ x. ⊥) trivial xs).perm
