-- ===== src/Sort/Search.antt =====
-- `sort.Search` of the standard library, for a test that passes ever after it passes once.
use go_snmpsim.Prelude.{
  ℕ, zero, suc, ◌+◌, ◌-◌, ◌/◌, ◌≤◌, ◌<◌, ◌≡◌, inl, inr, Bool, true, false, arith, ltb, Bool-cases,
}
use go_snmpsim.Sort.{search_loop, search}

-- Below `r` the test fails, and at `r`, if that is an index, it passes.
pub record IsFirst (f : ℕ → Bool) (n r : ℕ) : Type 0 where
  pub fits : r ≤ n
  pub before : (i : ℕ) → i < r → f i ≡ false
  pub here : r < n → f r ≡ true

module _ (f : ℕ → Bool) (n : ℕ) (up : (i j : ℕ) → i ≤ j → j < n → f i ≡ true → f j ≡ true) where
  search_loop-IsFirst :
      (fuel i j : ℕ)
      → j - i < fuel
      → i ≤ j
      → j ≤ n
      → ((k : ℕ) → k < i → f k ≡ false)
      → (j < n → f j ≡ true)
      → IsFirst f n (search_loop fuel f i j)
  unfolding search_loop
  search_loop-IsFirst zero i j a b c below above = absurd (omega arith)
  search_loop-IsFirst (suc fuel) i j a b c below above =
      let m = (i + j) / 2 in
      elim (Bool-cases (ltb i j)) [
        | inl more ↦
            let lt : i < j = ground arith in
            elim (Bool-cases (f m)) [
              | inl e ↦
                  rw (more, search_loop, e)
                    (search_loop-IsFirst fuel i m (omega arith) (omega arith) (omega arith) below
                      (λ _. e))
              | inr e ↦
                  rw (more, search_loop, e)
                    (search_loop-IsFirst fuel (m + 1) j (omega arith) (omega arith) c
                      (λ k h. ground (arith, up k m)) above)
            ]
        | inr done ↦
            rw (done, search_loop)
              (record { fits = omega arith; before = below; here = λ h. ground arith })
      ]

pub search-IsFirst :
    (n : ℕ) (f : ℕ → Bool)
    → ((i j : ℕ) → i ≤ j → j < n → f i ≡ true → f j ≡ true)
    → IsFirst f n (search n f)
unfolding search
search-IsFirst n f up =
    search_loop-IsFirst f n up (n + 1) 0 n (omega arith) (omega arith) (omega arith)
      (λ k h. absurd (omega arith)) (λ h. absurd (omega arith))
