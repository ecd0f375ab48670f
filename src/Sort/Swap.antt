-- ===== src/Sort/Swap.antt =====
-- What a swap of two entries does to a slice.
use mathlib.Core.List.Perm
use go_snmpsim.Prelude.{
  ℕ, zero, suc, ◌≤◌, ◌<◌, ◌≡◌, refl, List, [], ◌∷◌, Perm, length, get_or, set, length-set, arith,
  ◌==◌, if◌then◌else◌, if_either,
}
use go_snmpsim.Sort.{swap}
use go_snmpsim.Sort.Order.{InRange}

module _ {ℓ} {A : Type ℓ} (default : A) where
  pub get_or-set :
      (xs : List A) (i j : ℕ) (v : A)
      → i < length xs
      → get_or (set xs i v) j default ≡ (if i == j then v else get_or xs j default)
  get_or-set [] i j v h = absurd (omega arith)
  get_or-set (x ∷ xs) zero zero v h = refl
  get_or-set (x ∷ xs) (suc i) (suc j) v h = ground (arith, get_or-set xs i j v)
  get_or-set (x ∷ xs) i j v h = ground arith

  set-perm :
      (xs : List A) (i : ℕ) (v : A)
      → i < length xs
      → Perm (get_or xs i default ∷ set xs i v) (v ∷ xs)
  set-perm [] i v h = absurd (omega arith)
  set-perm (x ∷ xs) zero v h = Perm.swap v x xs
  set-perm (x ∷ xs) (suc i) v h =
      Perm.trans (Perm.swap x _ _)
        (Perm.trans (Perm.cons x (set-perm xs i v (omega arith))) (Perm.swap v x xs))

  pub length-swap : (xs : List A) (i j : ℕ) → length (swap default xs i j) ≡ length xs
  unfolding swap
  length-swap xs i j = simp length-set

  module _ (xs : List A) (i j : ℕ) (hi : i < length xs) (hj : j < length xs) where
    pub get_or-swap :
        (c : ℕ)
        → get_or (swap default xs i j) c default ≡ (
            if j == c
            then get_or xs i default
            else if i == c
            then get_or xs j default
            else get_or xs c default)
    unfolding swap
    get_or-swap c = rw (
      get_or-set (set xs i (get_or xs j default)) j c (get_or xs i default) (rw length-set hj),
      get_or-set xs i c (get_or xs j default) hi,
    )

    pub swap-perm : Perm (swap default xs i j) xs
    unfolding swap
    swap-perm =
        let ys = set xs i (get_or xs j default) in
        let same : get_or ys j default ≡ get_or xs j default =
          ground (arith, get_or-set xs i j (get_or xs j default)) in
        let written = rw same at (set-perm ys j (get_or xs i default) (rw length-set hj)) in
        Perm.cons_inv (Perm.trans written (set-perm xs i (get_or xs j default) hi))

    pub swap-InRange {κ} :
        (Q : A → Type κ) (low stop : ℕ)
        → low ≤ i
        → i < stop
        → low ≤ j
        → j < stop
        → InRange default Q xs low stop
        → InRange default Q (swap default xs i j) low stop
    swap-InRange Q low stop a b c d h k e f =
        rw (get_or-swap k)
          (if_either Q (j == k) (h i a b) (if_either Q (i == k) (h j c d) (h k e f)))
