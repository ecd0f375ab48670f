-- ===== src/Positions/Place.antt =====
-- Where the search for an OID ends, in a list of ascending OIDs.
use go_snmpsim.Prelude.{
  ℕ, ◌<◌, ◌≡◌, false, List, [], All-get_or, Bytes, length, get_or, arith, inl, inr, ℕ_trichotomy,
}
use go_snmpsim.Oid.{is_oid_less}
use go_snmpsim.Oid.Render.{IsCanonical}
use go_snmpsim.Positions.{search_oid_position}
use go_snmpsim.Positions.Ascending.{
  Before, Before_irrefl, IsAscending, search_oid_position-IsPosition, entries-Before,
}

-- The search ends at the only place that has the entries before the target in front of it.
pub search_oid_position-place :
    (xs : List Bytes) (target : Bytes) (k : ℕ)
    → IsAscending xs
    → IsCanonical target
    → k < length xs
    → ((j : ℕ) → j < k → Before (get_or xs j []) target)
    → is_oid_less (get_or xs k []) target ≡ false
    → search_oid_position xs target ≡ k
search_oid_position-place xs target k a c h before here =
    let r = search_oid_position xs target in
    let position = search_oid_position-IsPosition xs a target c in
    elim (ℕ_trichotomy r k) [
      | inl lt ↦ ground (arith, before r lt, position.above r (omega arith) (omega arith))
      | inr (inl same) ↦ same
      | inr (inr gt) ↦ ground (arith, position.below k gt)
    ]

-- The search for an entry ends at it.
pub search_oid_position-at :
    (xs : List Bytes) (k : ℕ)
    → IsAscending xs
    → k < length xs
    → search_oid_position xs (get_or xs k []) ≡ k
search_oid_position-at xs k a h =
    let target = get_or xs k [] in
    let c = All-get_or [] IsCanonical xs k a.canonical h in
    search_oid_position-place xs target k a c h (λ j lt. entries-Before xs a target c j k lt h)
      (Before_irrefl target c)
