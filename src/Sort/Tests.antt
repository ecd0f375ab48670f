-- ===== src/Sort/Tests.antt =====
-- Sorting and searching at concrete lists.
use go_snmpsim.Prelude.{ℕ, ◌≡◌, ◌≤◌, ◌<◌, refl, [], ◌∷◌, true, arith, ltb, leb}
use go_snmpsim.Sort.{quick_sort_all, quick_sort, partition, partition_loop, swap, search}
use go_snmpsim.Sort.Order.{IsOrder}
use go_snmpsim.Sort.Search.{IsFirst, search-IsFirst}

sorted_numbers : quick_sort_all 0 ltb (3 ∷ 1 ∷ 2 ∷ 1 ∷ []) ≡ 1 ∷ 1 ∷ 2 ∷ 3 ∷ []
unfolding quick_sort_all quick_sort partition partition_loop swap
sorted_numbers = refl

abbrev Any : ℕ → Type 0
Any n = Unit

ltb-IsOrder : IsOrder Any ltb
ltb-IsOrder = record { irrefl = λ x p. ground arith; trans = λ x y z p q r h k. ground arith }

at_least_three_up : (i j : ℕ) → i ≤ j → j < 5 → leb 3 i ≡ true → leb 3 j ≡ true
at_least_three_up i j h k e = ground arith

search-IsFirst_example : IsFirst (leb 3) 5 (search 5 (leb 3))
search-IsFirst_example = search-IsFirst 5 (leb 3) at_least_three_up
