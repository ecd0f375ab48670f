-- ===== src/Sort/Order.antt =====
-- Comparisons that order a part of their type, as a sort needs them.
use go_snmpsim.Prelude.{ℕ, ◌≡◌, ◌≤◌, ◌<◌, Bool, true, false, List, get_or, arith}

-- A strict order on the values that satisfy `P`.
pub record IsOrder {ℓ} {A : Type ℓ} (P : A → Type 0) (less : A → A → Bool) : Type ℓ where
  pub irrefl : (x : A) → P x → less x x ≡ false
  pub trans : (x y z : A) → P x → P y → P z → less x y ≡ true → less y z ≡ true → less x z ≡ true

module _ {ℓ} {A : Type ℓ} {P : A → Type 0} {less : A → A → Bool} (o : IsOrder P less) where
  pub asym : (x y : A) → P x → P y → less x y ≡ true → less y x ≡ false
  asym x y p q h = ground (arith, o.trans x y x p q p h, o.irrefl x p)

  -- What is not below `y` is not below anything that is.
  pub above_trans :
      (x y z : A) → P x → P y → P z → less x y ≡ true → less z y ≡ false → less z x ≡ false
  above_trans x y z p q r h k = ground (arith, o.trans z x y r p q)

module _ {ℓ} {A : Type ℓ} (default : A) where
  -- Every entry of the range satisfies `Q`.
  abbrev pub InRange {κ} : (A → Type κ) → List A → ℕ → ℕ → Type κ
  InRange Q xs low stop = (i : ℕ) → low ≤ i → i < stop → Q (get_or xs i default)

  -- No entry of the range is below one that stands before it.
  abbrev pub IsSorted : (A → A → Bool) → List A → ℕ → ℕ → Type 0
  IsSorted less xs low stop =
      (i j : ℕ)
      → low ≤ i
      → i < j
      → j < stop
      → less (get_or xs j default) (get_or xs i default) ≡ false
