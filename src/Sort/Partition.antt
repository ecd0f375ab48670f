-- ===== src/Sort/Partition.antt =====
-- internal/store/database.go: the places of the pivot and of the others after `partitionOIDs`.
use mathlib.Core.Path.{subst}
use mathlib.Core.List.Perm
use go_snmpsim.Prelude.{
  ℕ, zero, suc, ◌+◌, ◌-◌, ◌≤◌, ◌<◌, ◌≡◌, refl, ◌∙◌, ◌⊎◌, inl, inr, Bool, true, false, List, Perm,
  length, get_or, arith, Bool-cases,
}
use go_snmpsim.Sort.{swap, partition_loop, partition}
use go_snmpsim.Sort.Order.{InRange}
use go_snmpsim.Sort.Swap.{length-swap, get_or-swap, swap-perm, swap-InRange}

module _ {ℓ} {A : Type ℓ} (default : A) (less : A → A → Bool) (pivot : A) where
  -- The invariant rule of the loop.
  loop_inv {κ} :
      (Inv : ℕ → ℕ → List A → Type κ) (high : ℕ)
      → ((j store : ℕ) (xs : List A)
          → j < high
          → less (get_or xs j default) pivot ≡ true
          → Inv j store xs
          → Inv (j + 1) (store + 1) (swap default xs store j))
      → ((j store : ℕ) (xs : List A)
          → j < high
          → less (get_or xs j default) pivot ≡ false
          → Inv j store xs
          → Inv (j + 1) store xs)
      → (left j store : ℕ) (xs : List A) → j + left ≡ high
      → Inv j store xs
      → let r = partition_loop default less left j pivot store xs in Inv high r.0 r.1
  unfolding partition_loop
  loop_inv Inv high moved kept zero j store xs e h =
      let last : j ≡ high = omega arith in subst (λ m. Inv m store xs) last h
  loop_inv Inv high moved kept (suc left) j store xs e h =
      elim (Bool-cases (less (get_or xs j default) pivot)) [
        | inl below ↦
            rw (below, partition_loop)
              (loop_inv Inv high moved kept left (j + 1) (store + 1) (swap default xs store j)
                (omega arith) (moved j store xs (omega arith) below h))
        | inr not_below ↦
            rw (not_below, partition_loop)
              (loop_inv Inv high moved kept left (j + 1) store xs (omega arith)
                (kept j store xs (omega arith) not_below h))
      ]

  -- Before the round for `j`, in a slice that was `old` before the loop.
  pub record IsSplit (old : List A) (low j store : ℕ) (xs : List A) : Type ℓ where
    pub from_low : low ≤ store
    pub to_j : store ≤ j
    pub same_length : length xs ≡ length old
    pub outside : (i : ℕ) → (i < low) ⊎ (j ≤ i) → get_or xs i default ≡ get_or old i default
    pub below : InRange default (λ x. less x pivot ≡ true) xs low store
    pub above : InRange default (λ x. less x pivot ≡ false) xs store j

  module _ (old : List A) (low high : ℕ) (fits : high < length old) where
    moved-IsSplit :
        (j store : ℕ) (xs : List A)
        → j < high
        → less (get_or xs j default) pivot ≡ true
        → IsSplit old low j store xs
        → IsSplit old low (j + 1) (store + 1) (swap default xs store j)
    moved-IsSplit j store xs lt e s =
        let size = s.same_length in
        let at = get_or-swap default xs store j (omega (arith, s.to_j)) (omega arith) in
        record {
          from_low = omega (arith, s.from_low);
          to_j = omega (arith, s.to_j);
          same_length = omega (arith, length-swap default xs store j);
          outside = λ i h. ground (arith, at i, s.outside i, s.from_low, s.to_j);
          below = λ i p q. ground (arith, at i, s.below i, s.to_j);
          above = λ i p q. ground (arith, at i, s.above i, s.above store, s.to_j);
        }

    kept-IsSplit :
        (j store : ℕ) (xs : List A)
        → j < high
        → less (get_or xs j default) pivot ≡ false
        → IsSplit old low j store xs
        → IsSplit old low (j + 1) store xs
    kept-IsSplit j store xs lt e s = record {
      from_low = s.from_low;
      to_j = omega (arith, s.to_j);
      same_length = s.same_length;
      outside = λ i h. s.outside i (ground arith);
      below = s.below;
      above = λ i p q. ground (arith, s.above i);
    }

    pub loop-IsSplit :
        low ≤ high
        → let r = partition_loop default less (high - low) low pivot low old in
          IsSplit old low high r.0 r.1
    loop-IsSplit h =
        loop_inv (IsSplit old low) high moved-IsSplit kept-IsSplit (high - low) low low old
          (omega arith) start
      where
        start : IsSplit old low low low old
        start = record {
          from_low = omega arith;
          to_j = omega arith;
          same_length = refl;
          outside = λ i h. refl;
          below = λ i p q. absurd (omega arith);
          above = λ i p q. absurd (omega arith);
        }

    -- The entries of the range are only moved about inside it.
    abbrev IsRearranged {κ} : (A → Type κ) → ℕ → ℕ → List A → Type (ℓ ⊔ κ)
    IsRearranged Q j store xs =
        (low ≤ store)
        × (store ≤ j)
        × (length xs ≡ length old)
        × Perm xs old
        × InRange default Q xs low (high + 1)

    pub loop-IsRearranged {κ} :
        (Q : A → Type κ)
        → low ≤ high
        → InRange default Q old low (high + 1)
        → let r = partition_loop default less (high - low) low pivot low old in
          IsRearranged Q high r.0 r.1
    loop-IsRearranged Q h every =
        loop_inv (IsRearranged Q) high
          (λ j store xs lt e (a, b, c, p, q). (
            omega arith,
            omega arith,
            omega (arith, length-swap default xs store j),
            Perm.trans (swap-perm default xs store j (omega arith) (omega arith)) p,
            swap-InRange default xs store j (omega arith) (omega arith) Q low (high + 1)
                (omega arith) (omega arith) (omega arith) (omega arith) q,
          ))
          (λ j store xs lt e (a, b, c, p, q). (a, omega arith, c, p, q)) (high - low) low low old
          (omega arith) (omega arith, omega arith, refl, Perm.refl old, every)

module _ {ℓ} {A : Type ℓ} (default : A) (less : A → A → Bool) where
  -- `partition` returns a place in the range, what is below its entry before it, the rest behind.
  pub record IsPartition (old : List A) (low high : ℕ) (place : ℕ) (xs : List A) : Type ℓ where
    pub from_low : low ≤ place
    pub to_high : place ≤ high
    pub same_length : length xs ≡ length old
    pub outside : (i : ℕ) → (i < low) ⊎ (high < i) → get_or xs i default ≡ get_or old i default
    pub below : InRange default (λ x. less x (get_or xs place default) ≡ true) xs low place
    pub above :
        InRange default (λ x. less x (get_or xs place default) ≡ false) xs (place + 1) (high + 1)

  module _ (old : List A) (low high : ℕ) (fits : high < length old) (h : low ≤ high) where
    abbrev pivot : A
    pivot = get_or old high default

    abbrev split : ℕ × List A
    split = partition_loop default less (high - low) low pivot low old

    pub partition-IsPartition :
        let r = partition default less old low high in IsPartition old low high r.0 r.1
    unfolding partition
    partition-IsPartition =
        let s = loop-IsSplit default less pivot old low high fits h in
        let at =
          get_or-swap default split.1 split.0 high (omega (arith, s.to_j, s.same_length))
            (omega (arith, s.same_length)) in
        record {
          from_low = s.from_low;
          to_high = s.to_j;
          same_length = length-swap default split.1 split.0 high ∙ s.same_length;
          outside = λ i p. ground (arith, at i, s.outside i, s.from_low, s.to_j);
          below = λ i p q. ground (arith, at i, at split.0, s.below i, s.outside high, s.to_j);
          above = λ i p q.
              ground (arith, at i, at split.0, s.above i, s.above split.0, s.outside high, s.to_j);
        }

    pub partition-perm : Perm (partition default less old low high).1 old
    unfolding partition
    partition-perm =
        let (a, b, c, p, q) =
          loop-IsRearranged default less pivot old low high fits (λ _. Unit {0}) h (λ _ _ _. tt) in
        Perm.trans (swap-perm default split.1 split.0 high (omega arith) (omega arith)) p

    pub partition-InRange {κ} :
        (Q : A → Type κ)
        → InRange default Q old low (high + 1)
        → InRange default Q (partition default less old low high).1 low (high + 1)
    unfolding partition
    partition-InRange Q every =
        let (a, b, c, p, q) = loop-IsRearranged default less pivot old low high fits Q h every in
        swap-InRange default split.1 split.0 high (omega arith) (omega arith) Q low (high + 1)
          (omega arith) (omega arith) (omega arith) (omega arith) q
