-- ===== src/Database/Sorting.antt =====
-- internal/store/database.go: the order that `SortOIDs` leaves.
use mathlib.Core.Logic.Or
use mathlib.Core.List.{Mem-prop, mem-cons, mem-cons_of_mem}
use mathlib.Core.List.Perm
use go_snmpsim.Prelude.{
  ◌≡◌, List, [], ◌∷◌, Bytes, bytes_eq, bytes_eq_iff, bytes_eq_refl, All, AllPairs, All-of_get_or,
  AllPairs-of_get_or, All-get_or, length, length-perm, arith, false, Bool-cases, inl, inr, ◌↔◌, Mem,
}
use go_snmpsim.Sort.{quick_sort_all}
use go_snmpsim.Sort.Order.{IsOrder}
use go_snmpsim.Sort.Sorted.{Sorts, quick_sort_all-Sorts}
use go_snmpsim.Oid.{is_oid_less}
use go_snmpsim.Oid.Compare.{is_oid_less-IsOrder}
use go_snmpsim.Oid.Render.{IsCanonical, is_oid_less_total}
use go_snmpsim.Positions.Ascending.{Before, IsAscending, Before-trans}
use go_snmpsim.Database.{OidDatabase, dedup_from, dedup_adjacent, sort_oids}

abbrev pub NotAfter : Bytes → Bytes → Type 0
NotAfter s t = is_oid_less t s ≡ false

abbrev pub sorted : List Bytes → List Bytes
sorted = quick_sort_all [] is_oid_less

module _ (xs : List Bytes) (canonical : All IsCanonical xs) where
  IsCanonical-IsOrder : IsOrder IsCanonical is_oid_less
  IsCanonical-IsOrder = record {
    irrefl = λ x p. is_oid_less-IsOrder.irrefl x p.oid;
    trans = λ x y z p q r. is_oid_less-IsOrder.trans x y z p.oid q.oid r.oid;
  }

  pub sorts : Sorts [] is_oid_less IsCanonical xs 0 (length xs) (sorted xs)
  sorts = quick_sort_all-Sorts [] is_oid_less IsCanonical IsCanonical-IsOrder xs

  same_length : length (sorted xs) ≡ length xs
  same_length = length-perm sorts.perm

  pub sorted-IsCanonical : All IsCanonical (sorted xs)
  sorted-IsCanonical = All-of_get_or [] IsCanonical (sorted xs) (λ i h.
      sorts.keeps IsCanonical (λ k a b. All-get_or [] IsCanonical xs k canonical b) i (omega arith)
        (omega (arith, same_length)))

  pub sorted-ordered : AllPairs NotAfter (sorted xs)
  sorted-ordered = AllPairs-of_get_or [] NotAfter (sorted xs) (λ i j a b.
      sorts.sorted (λ k c d. All-get_or [] IsCanonical xs k canonical d) i j (omega arith) a
        (omega (arith, same_length)))

-- Behind an entry that is not after those that follow, each that is kept comes after it.
record Dedup (last : Bytes) (ys : List Bytes) : Type 0 where
  canonical : All IsCanonical ys
  behind : All (Before last) ys
  ordered : AllPairs Before ys

pub All-map {ℓ κ κ'} :
    {A : Type ℓ} {P : A → Type κ} {Q : A → Type κ'} (f : (x : A) → P x → Q x) (xs : List A)
    → All P xs
    → All Q xs
All-map f [] h = tt
All-map f (x ∷ xs) h = (f x h.0, All-map f xs h.1)

pub All-zip {ℓ κ κ'} :
    {A : Type ℓ} (P : A → Type κ) (Q : A → Type κ') (xs : List A)
    → All P xs
    → All Q xs
    → All (λ x. P x × Q x) xs
All-zip P Q [] h k = tt
All-zip P Q (x ∷ xs) h k = ((h.0, k.0), All-zip P Q xs h.1 k.1)

dedup_from-Dedup :
    (last : Bytes) (xs : List Bytes)
    → IsCanonical last
    → All IsCanonical xs
    → All (NotAfter last) xs
    → AllPairs NotAfter xs
    → Dedup last (dedup_from last xs)
unfolding dedup_from
dedup_from-Dedup last [] c cs b o = record { canonical = tt; behind = tt; ordered = tt }
dedup_from-Dedup last (x ∷ xs) c cs b o = elim (Bool-cases (bytes_eq x last)) [
  | inl e ↦ rw (e, dedup_from) (dedup_from-Dedup last xs c cs.1 b.1 o.1)
  | inr e ↦
      let ih = dedup_from-Dedup x xs cs.0 cs.1 o.0 o.1 in
      let after : Before last x =
        ground (arith, is_oid_less_total x last cs.0 c b.0, bytes_eq_iff x last, bytes_eq_refl x) in
      rw (e, dedup_from)
        (record {
          canonical = (cs.0, ih.canonical);
          behind = (
            after,
            All-map (λ y p. Before-trans last x y c cs.0 p.0 after p.1) (dedup_from x xs)
                (All-zip IsCanonical (Before x) (dedup_from x xs) ih.canonical ih.behind),
          );
          ordered = (ih.behind, ih.ordered);
        })
]

dedup_adjacent-IsAscending :
    (xs : List Bytes) → All IsCanonical xs → AllPairs NotAfter xs → IsAscending (dedup_adjacent xs)
unfolding dedup_adjacent
dedup_adjacent-IsAscending [] c o = record { canonical = tt; ordered = tt }
dedup_adjacent-IsAscending (x ∷ xs) c o =
    let d = dedup_from-Dedup x xs c.0 c.1 o.0 o.1 in
    record { canonical = (c.0, d.canonical); ordered = (d.behind, d.ordered) }

mem-cons_cong {ℓ} :
    {A : Type ℓ} {a : A} {xs ys : List A} (x : A)
    → Mem a xs ↔ Mem a ys
    → Mem a (x ∷ xs) ↔ Mem a (x ∷ ys)
mem-cons_cong x e = (
  λ m.
      Or.elim Mem-prop (mem-cons.0 m) (λ h. mem-cons.1 (Or.inl h)) (λ h. mem-cons_of_mem x (e.0 h)),
  λ m.
      Or.elim Mem-prop (mem-cons.0 m) (λ h. mem-cons.1 (Or.inl h)) (λ h. mem-cons_of_mem x (e.1 h)),
)

mem-cons_twice {ℓ} :
    {A : Type ℓ} {a : A} (x : A) (xs : List A) → Mem a (x ∷ xs) ↔ Mem a (x ∷ x ∷ xs)
mem-cons_twice x xs = (
  λ m. mem-cons_of_mem x m,
  λ m. Or.elim Mem-prop (mem-cons.0 m) (λ h. mem-cons.1 (Or.inl h)) (λ h. h),
)

-- An entry is dropped only if it is the last one kept.
mem-dedup_from :
    (a last : Bytes) (xs : List Bytes) → Mem a (last ∷ dedup_from last xs) ↔ Mem a (last ∷ xs)
unfolding dedup_from
mem-dedup_from a last [] = ((λ m. m), (λ m. m))
mem-dedup_from a last (x ∷ xs) = elim (Bool-cases (bytes_eq x last)) [
  | inl e ↦
      let ih = mem-dedup_from a last xs in
      let twice = mem-cons_twice {a = a} last xs in
      rw (e, dedup_from, (bytes_eq_iff x last).0 e)
        ((λ m. twice.0 (ih.0 m)), (λ m. ih.1 (twice.1 m)))
  | inr e ↦ rw (e, dedup_from) (mem-cons_cong last (mem-dedup_from a x xs))
]

mem-dedup_adjacent : (a : Bytes) (xs : List Bytes) → Mem a (dedup_adjacent xs) ↔ Mem a xs
unfolding dedup_adjacent
mem-dedup_adjacent a [] = ((λ m. m), (λ m. m))
mem-dedup_adjacent a (x ∷ xs) = mem-dedup_from a x xs

-- If every OID is in canonical form, `SortOIDs` leaves them in strictly ascending order, and it
-- leaves exactly those that were there.
pub sort_oids-IsAscending :
    (odb : OidDatabase)
    → All IsCanonical odb.sorted_oids
    → IsAscending (sort_oids odb).sorted_oids
      × ((a : Bytes) → Mem a (sort_oids odb).sorted_oids ↔ Mem a odb.sorted_oids)
unfolding sort_oids
sort_oids-IsAscending odb c =
    let xs = odb.sorted_oids in
    (
      dedup_adjacent-IsAscending (sorted xs) (sorted-IsCanonical xs c) (sorted-ordered xs c),
      λ a.
          let m = mem-dedup_adjacent a (sorted xs) in
          let p = Perm.mem_iff {a = a} (sorts xs c).perm in
          ((λ h. p.0 (m.0 h)), (λ h. m.1 (p.1 h))),
    )
