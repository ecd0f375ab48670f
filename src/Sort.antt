-- ===== src/Sort.antt =====
-- internal/store/database.go: quickSortOIDs and partitionOIDs, over any comparison; and `sort.Search`
-- of the standard library, which the store's lookups call. A slice is a list, a write to it is `set`.
-- The source passes the last index `high` of a range, which is -1 for an empty slice; `stop` here is
-- `high + 1`, so that every index is a natural number.
pub mod Order
pub mod Swap
pub mod Partition
pub mod Sorted
pub mod Search
pub mod Stable
pub mod Tests
use go_snmpsim.Prelude.{
  ℕ, zero, suc, ◌+◌, ◌-◌, ◌/◌, Bool, true, false, not, List, length, get_or, set, ltb,
  if◌then◌else◌,
}

module _ {ℓ} {A : Type ℓ} (default : A) where
  -- `oids[i], oids[j] = oids[j], oids[i]`
  unfoldable pub swap : List A → ℕ → ℕ → List A
  swap xs i j = set (set xs i (get_or xs j default)) j (get_or xs i default)

module _ {ℓ} {A : Type ℓ} (default : A) (less : A → A → Bool) where
  -- The loop of `partitionOIDs`, with `left` rounds to go: `j` is `high - left`, and `store` is the
  -- source's `i + 1`.
  unfoldable pub partition_loop : ℕ → ℕ → A → ℕ → List A → ℕ × List A
  partition_loop zero j pivot store xs = (store, xs)
  partition_loop (suc left) j pivot store xs = elim (less (get_or xs j default) pivot) [
    | true ↦ partition_loop left (j + 1) pivot (store + 1) (swap default xs store j)
    | false ↦ partition_loop left (j + 1) pivot store xs
  ]

  -- The index of the pivot, and the slice.
  unfoldable pub partition : List A → ℕ → ℕ → ℕ × List A
  partition xs low high =
      let r = partition_loop (high - low) low (get_or xs high default) low xs in
      (r.0, swap default r.1 r.0 high)

  unfoldable pub quick_sort : ℕ → List A → ℕ → ℕ → List A
  quick_sort zero xs low stop = xs
  quick_sort (suc fuel) xs low stop = elim (ltb (low + 1) stop) [
    | true ↦
        let r = partition xs low (stop - 1) in
        quick_sort fuel (quick_sort fuel r.1 low r.0) (r.0 + 1) stop
    | false ↦ xs
  ]

  -- `quickSortOIDs(oids, 0, len(oids)-1)`. A range gets shorter with each call, so the recursion is
  -- no deeper than the slice is long.
  unfoldable pub quick_sort_all : List A → List A
  quick_sort_all xs = quick_sort (length xs) xs 0 (length xs)

-- `for i < j { h := (i+j)/2; if !f(h) { i = h + 1 } else { j = h } }`
pub search_loop : ℕ → (ℕ → Bool) → ℕ → ℕ → ℕ
search_loop zero f i j = i
search_loop (suc fuel) f i j = elim (ltb i j) [
  | true ↦ elim (f ((i + j) / 2)) [
    | true ↦ search_loop fuel f i ((i + j) / 2)
    | false ↦ search_loop fuel f ((i + j) / 2 + 1) j
  ]
  | false ↦ i
]

-- `sort.Search(n, f)`
unfoldable pub search : ℕ → (ℕ → Bool) → ℕ
unfolding search_loop
search n f = search_loop (n + 1) f 0 n
