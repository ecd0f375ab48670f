-- ===== src/Sort/Stable.antt =====
-- `sort.SliceStable` of the standard library, with the comparison `rank(i) > rank(j)` that the source
-- passes to it, and a loop over the result that stops at the first entry that passes a test.
use go_snmpsim.Prelude.{
  ℕ, ◌≤◌, ◌≡◌, refl, Bool, Option, none, some, Option-cases, List, [], ◌∷◌, All, arith, ltb,
  if◌then◌else◌, Bool-cases, inl, inr,
}

-- The first entry that passes.
unfoldable pub find_first {ℓ} : {A : Type ℓ} → (A → Bool) → List A → Option A
find_first p [] = none
find_first p (x ∷ xs) = if p x then some x else find_first p xs

module _ {ℓ} {A : Type ℓ} (rank : A → ℕ) where
  -- An entry goes before those of its rank, which come from further right.
  insert_stable : A → List A → List A
  insert_stable x [] = x ∷ []
  insert_stable x (y ∷ ys) =
      let behind = y ∷ insert_stable x ys in if ltb (rank x) (rank y) then behind else x ∷ y ∷ ys

  unfoldable pub sort_stable_desc : List A → List A
  unfolding insert_stable
  sort_stable_desc [] = []
  sort_stable_desc (x ∷ xs) = insert_stable x (sort_stable_desc xs)

  -- The one of two entries with the higher rank, and the left one of equals.
  abbrev pub higher : A → Option A → Option A
  higher x none = some x
  higher x (some y) = if ltb (rank x) (rank y) then some y else some x

  -- The leftmost of the entries with the highest rank among those that pass.
  pub best : (A → Bool) → List A → Option A
  best p [] = none
  best p (x ∷ xs) = if p x then higher x (best p xs) else best p xs

  abbrev pub IsDescending : List A → Type 0
  IsDescending [] = Unit
  IsDescending (x ∷ xs) = All (λ y. rank y ≤ rank x) xs × IsDescending xs

  insert-All :
      (n : ℕ) (x : A) (ys : List A)
      → rank x ≤ n
      → All (λ y. rank y ≤ n) ys
      → All (λ y. rank y ≤ n) (insert_stable x ys)
  unfolding insert_stable
  insert-All n x [] h k = (h, tt)
  insert-All n x (y ∷ ys) h k = ground (arith, insert-All n x ys h k.1)

  weaken : (n m : ℕ) (ys : List A) → n ≤ m → All (λ y. rank y ≤ n) ys → All (λ y. rank y ≤ m) ys
  weaken n m [] h k = tt
  weaken n m (y ∷ ys) h k = (omega arith, weaken n m ys h k.1)

  insert-IsDescending : (x : A) (ys : List A) → IsDescending ys → IsDescending (insert_stable x ys)
  unfolding insert_stable
  insert-IsDescending x [] h = (tt, tt)
  insert-IsDescending x (y ∷ ys) h = elim (Bool-cases (ltb (rank x) (rank y))) [
    | inl e ↦
        rw (e, insert_stable)
          (insert-All (rank y) x ys (ground arith) h.0, insert-IsDescending x ys h.1)
    | inr e ↦
        rw (e, insert_stable) (((ground arith), weaken (rank y) (rank x) ys (ground arith) h.0), h)
  ]

  pub sort_stable-IsDescending : (xs : List A) → IsDescending (sort_stable_desc xs)
  unfolding sort_stable_desc
  sort_stable-IsDescending [] = tt
  sort_stable-IsDescending (x ∷ xs) =
      insert-IsDescending x (sort_stable_desc xs) (sort_stable-IsDescending xs)

  -- What is found has no higher rank than the entries that it is found among.
  find_first-le :
      (p : A → Bool) (n : ℕ) (ys : List A) (z : A)
      → All (λ y. rank y ≤ n) ys
      → find_first p ys ≡ some z
      → rank z ≤ n
  unfolding find_first
  find_first-le p n [] z h e = cc
  find_first-le p n (y ∷ ys) z h e = ground (arith, find_first-le p n ys z h.1)

  find_first-insert :
      (p : A → Bool) (x : A) (ys : List A)
      → IsDescending ys
      → find_first p (insert_stable x ys)
        ≡ (if p x then higher x (find_first p ys) else find_first p ys)
  unfolding insert_stable find_first
  find_first-insert p x [] h = refl
  find_first-insert p x (y ∷ ys) h = elim (Option-cases (find_first p ys)) [
    | inl e ↦ ground (arith, find_first-insert p x ys h.1)
    | inr (z, e) ↦ ground (arith, find_first-insert p x ys h.1, find_first-le p (rank y) ys z h.0 e)
  ]

  -- The first entry of the sorted list that passes is the best one of the list.
  pub find_first-sort_stable :
      (p : A → Bool) (xs : List A) → find_first p (sort_stable_desc xs) ≡ best p xs
  unfolding sort_stable_desc find_first best
  find_first-sort_stable p [] = refl
  find_first-sort_stable p (x ∷ xs) = rw (
    find_first-insert p x (sort_stable_desc xs) (sort_stable-IsDescending xs),
    find_first-sort_stable p xs,
  )
