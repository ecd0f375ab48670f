-- ===== src/Prelude/Pairs.antt =====
-- Relations between the entries of a list, by recursion and by indices.
use Prim.Native.Nat.{ℕ, zero, suc, ◌<◌}
use mathlib.Core.List.{List, [], ◌∷◌, Mem, not-mem-nil, mem-cons}
use mathlib.Core.Logic.Or
use native.Mathlib.Omega.{arith}
use go_snmpsim.Prelude.Lists.{length, get_or, All}

module _ {ℓ} {A : Type ℓ} (R : A → A → Type 0) where
  -- `R` holds from each entry to each later one.
  abbrev pub AllPairs : List A → Type 0
  AllPairs [] = Unit
  AllPairs (x ∷ xs) = All (R x) xs × AllPairs xs

module _ {ℓ} {A : Type ℓ} (default : A) where
  pub All-get_or {κ} :
      (Q : A → Type κ) (xs : List A) (i : ℕ) → All Q xs → i < length xs → Q (get_or xs i default)
  All-get_or Q [] i h lt = absurd (omega arith)
  All-get_or Q (x ∷ xs) zero h lt = h.0
  All-get_or Q (x ∷ xs) (suc i) h lt = All-get_or Q xs i h.1 (omega arith)

  pub All-of_get_or {κ} :
      (Q : A → Type κ) (xs : List A)
      → ((i : ℕ) → i < length xs → Q (get_or xs i default))
      → All Q xs
  All-of_get_or Q [] h = tt
  All-of_get_or Q (x ∷ xs) h =
      (h 0 (omega arith), All-of_get_or Q xs (λ i lt. h (suc i) (omega arith)))

  module _ (R : A → A → Type 0) where
    pub AllPairs-get_or :
        (xs : List A) (i j : ℕ)
        → AllPairs R xs
        → i < j
        → j < length xs
        → R (get_or xs i default) (get_or xs j default)
    AllPairs-get_or [] i j h a b = absurd (omega arith)
    AllPairs-get_or (x ∷ xs) i zero h a b = absurd (omega arith)
    AllPairs-get_or (x ∷ xs) zero (suc j) h a b = All-get_or (R x) xs j h.0 (omega arith)
    AllPairs-get_or (x ∷ xs) (suc i) (suc j) h a b =
        AllPairs-get_or xs i j h.1 (omega arith) (omega arith)

    pub AllPairs-of_get_or :
        (xs : List A)
        → ((i j : ℕ) → i < j → j < length xs → R (get_or xs i default) (get_or xs j default))
        → AllPairs R xs
    AllPairs-of_get_or [] h = tt
    AllPairs-of_get_or (x ∷ xs) h = (
      All-of_get_or (R x) xs (λ j lt. h 0 (suc j) (omega arith) (omega arith)),
      AllPairs-of_get_or xs (λ i j a b. h (suc i) (suc j) (omega arith) (omega arith)),
    )

module _ {ℓ} {A : Type ℓ} {Q : A → Type 0} (prop : (x : A) → IsProp (Q x)) where
  pub All-mem : (xs : List A) (x : A) → All Q xs → Mem x xs → Q x
  All-mem [] x h m = absurd (not-mem-nil m)
  All-mem (y ∷ xs) x h m = Or.elim (prop x) (mem-cons.0 m) (λ e. rw e h.0) (All-mem xs x h.1)
