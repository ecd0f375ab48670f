-- ===== src/Positions/Ascending.antt =====
-- Lists of OIDs in strictly ascending order, and where a search in one ends.
use mathlib.Core.Bool.{not}
use go_snmpsim.Prelude.{
  ℕ, ◌≤◌, ◌<◌, ◌≡◌, inl, inr, true, false, List, [], All, AllPairs, All-get_or, AllPairs-get_or,
  Bytes, length, get_or, arith, ℕ_trichotomy,
}
use go_snmpsim.Sort.Order.{asym}
use go_snmpsim.Sort.Search.{search-IsFirst}
use go_snmpsim.Oid.{is_oid_less}
use go_snmpsim.Oid.Compare.{is_oid_less-IsOrder}
use go_snmpsim.Oid.Render.{IsCanonical}
use go_snmpsim.Positions.{search_oid_position}

-- `s` comes before `t`.
abbrev pub Before : Bytes → Bytes → Type 0
Before s t = is_oid_less s t ≡ true

pub record IsAscending (xs : List Bytes) : Type 0 where
  pub canonical : All IsCanonical xs
  pub ordered : AllPairs Before xs

pub Before-trans :
    (s t u : Bytes)
    → IsCanonical s
    → IsCanonical t
    → IsCanonical u
    → Before s t
    → Before t u
    → Before s u
Before-trans s t u c d e = is_oid_less-IsOrder.trans s t u c.oid d.oid e.oid

pub Before-asym :
    (s t : Bytes) → IsCanonical s → IsCanonical t → Before s t → is_oid_less t s ≡ false
Before-asym s t c d = asym is_oid_less-IsOrder s t c.oid d.oid

pub Before_irrefl : (s : Bytes) → IsCanonical s → is_oid_less s s ≡ false
Before_irrefl s c = is_oid_less-IsOrder.irrefl s c.oid

-- The entries before place `r` come before the target, the others do not.
pub record IsPosition (xs : List Bytes) (target : Bytes) (r : ℕ) : Type 0 where
  pub fits : r ≤ length xs
  pub below : (i : ℕ) → i < r → Before (get_or xs i []) target
  pub above : (i : ℕ) → r ≤ i → i < length xs → is_oid_less (get_or xs i []) target ≡ false

module _ (xs : List Bytes) (a : IsAscending xs) (target : Bytes) (c : IsCanonical target) where
  pub entry-IsCanonical : (i : ℕ) → i < length xs → IsCanonical (get_or xs i [])
  entry-IsCanonical i h = All-get_or [] IsCanonical xs i a.canonical h

  pub entries-Before : (i j : ℕ) → i < j → j < length xs → Before (get_or xs i []) (get_or xs j [])
  entries-Before i j h k = AllPairs-get_or [] Before xs i j a.ordered h k

  -- What is not before the target has only such entries behind it.
  above_up :
      (i j : ℕ)
      → i ≤ j
      → j < length xs
      → not (is_oid_less (get_or xs i []) target) ≡ true
      → not (is_oid_less (get_or xs j []) target) ≡ true
  above_up i j h k e = elim (ℕ_trichotomy i j) [
    | inl lt ↦ ground (
      arith,
      entries-Before i j lt k,
      Before-trans (get_or xs i []) (get_or xs j []) target (entry-IsCanonical i (omega arith))
          (entry-IsCanonical j k) c,
    )
    | inr (inl same) ↦ rw same at e
    | inr (inr gt) ↦ absurd (omega arith)
  ]

  -- In ascending OIDs the search for a canonical target ends at the number of OIDs before it: those
  -- below that place come before the target, the others do not.
  pub search_oid_position-IsPosition : IsPosition xs target (search_oid_position xs target)
  unfolding search_oid_position
  search_oid_position-IsPosition =
      let f = λ (i : ℕ). not (is_oid_less (get_or xs i []) target) in
      let first = search-IsFirst (length xs) f above_up in
      record {
        fits = first.fits;
        below = λ i h. ground (arith, first.before i h);
        above = λ i h k.
            ground
              (arith, above_up (search_oid_position xs target) i h k (first.here (omega arith)));
      }
