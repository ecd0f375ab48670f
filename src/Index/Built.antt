-- ===== src/Index/Built.antt =====
-- internal/store/index_manager.go: the index that `BuildIndex` makes of a database without tables.
use mathlib.Core.List.{foldl, map, mem-cons_of_mem, mem-cons_self, append_assoc, append-nil}
use mathlib.Core.List.Perm
use mathlib.Core.Path.{subst}
use go_snmpsim.Prelude.{
  Bool, lookup-nil, text_eq, ◌≡◌, ◌≢◌, ◌∙◌, refl, sym, ap, false, true, none, Option-cases, List,
  [], ◌∷◌, ◌++◌, Bytes, is_empty, All, All-mem, AllPairs, Mem, Perm, length-perm, arith, inl, inr,
}
use go_snmpsim.Oid.Render.{IsCanonical, is_oid_less_total}
use go_snmpsim.Snmp.{OidEntry}
use go_snmpsim.Positions.Ascending.{Before, IsAscending, Before-asym, Before_irrefl}
use go_snmpsim.Sort.{quick_sort_all, quick_sort}
use go_snmpsim.Database.Sorting.{
  All-map, All-zip, NotAfter, sorted, sorts, sorted-IsCanonical, sorted-ordered,
}
use go_snmpsim.Database.Consistent.{IsConsistent}
use go_snmpsim.Database.Next.{IsNext, get_next-IsNext}
use go_snmpsim.Database
use go_snmpsim.Database.{OidDatabase, get, walk_loop, walk}
use go_snmpsim.Table.Structure.{is_table_entry, detect_table_structure, detect_step}
use go_snmpsim.Index.{
  OidIndexManager, new_oid_index_manager, collect_entries, plain_oids, index_oids, build_index,
  prefix_marked, is_table_oid, get_next,
}
use go_snmpsim.Index.Refines.{answer, get_next-answer}

-- The OIDs that are walked are those of the entries.
abbrev oid_of : OidEntry → Bytes
oid_of entry = entry.oid

abbrev kept_entries : OidDatabase → List Bytes → List OidEntry → List OidEntry
kept_entries odb oids entries =
    walk_loop odb
      (λ oid value entries.
        (entries ++ (record { oid = oid; type = value.type; value = value.value }) ∷ [], true))
      oids entries

map-append : (es fs : List OidEntry) → map oid_of (es ++ fs) ≡ map oid_of es ++ map oid_of fs
map-append [] fs = refl
map-append (e ∷ es) fs = ap (λ xs. e.oid ∷ xs) (map-append es fs)

kept_entries-oids :
    (odb : OidDatabase) (oids : List Bytes) (entries : List OidEntry)
    → ((oid : Bytes) → Mem oid oids → get odb oid ≢ none)
    → map oid_of (kept_entries odb oids entries) ≡ map oid_of entries ++ oids
unfolding walk_loop
kept_entries-oids odb [] entries stored = sym (append-nil (map oid_of entries))
kept_entries-oids odb (oid ∷ oids) entries stored = elim (Option-cases (get odb oid)) [
  | inl e ↦ absurd (stored oid mem-cons_self e)
  | inr (value, e) ↦
      let new : OidEntry = record { oid = oid; type = value.type; value = value.value } in
      let ih =
        kept_entries-oids odb oids (entries ++ new ∷ [])
          (λ o m. stored o (mem-cons_of_mem oid m)) in
      rw (walk_loop, e)
        (ih
          ∙ ap (λ xs. xs ++ oids) (map-append entries (new ∷ []))
          ∙ append_assoc (map oid_of entries) (oid ∷ []) oids)
]

-- No entry is of a table.
abbrev NoTables : List Bytes → Type 0
NoTables = All (λ oid. is_table_entry oid ≡ false)

plain_oids-all : (es : List OidEntry) → NoTables (map oid_of es) → plain_oids es ≡ map oid_of es
unfolding plain_oids
plain_oids-all [] h = refl
plain_oids-all (e ∷ es) h = rw h.0 (ap (λ xs. e.oid ∷ xs) (plain_oids-all es h.1))

no_table_found : (es : List OidEntry) → NoTables (map oid_of es) → foldl detect_step [] es ≡ []
unfolding detect_step
no_table_found [] h = refl
no_table_found (e ∷ es) h = rw h.0 (no_table_found es h.1)

nothing_marked : (seen oid : Bytes) → prefix_marked [] seen oid ≡ false
unfolding prefix_marked
nothing_marked seen [] = refl
nothing_marked seen (c ∷ rest) =
    ground (arith, nothing_marked (seen ++ c ∷ []) rest, lookup-nil {V = Bool} seen)

-- Two lists in order with the same OIDs are equal.
heads-equal :
    (x y : Bytes) (xs ys : List Bytes)
    → IsCanonical x
    → IsCanonical y
    → All (NotAfter x) xs
    → All (NotAfter y) ys
    → Mem x (y ∷ ys)
    → Mem y (x ∷ xs)
    → x ≡ y
heads-equal x y xs ys c d after_x after_y m n =
    is_oid_less_total x y c d (All-mem (λ z. hlevel) (y ∷ ys) x (Before_irrefl y d, after_y) m)
      (All-mem (λ z. hlevel) (x ∷ xs) y (Before_irrefl x c, after_x) n)

in_order_unique :
    (xs ys : List Bytes)
    → All IsCanonical xs
    → All IsCanonical ys
    → AllPairs NotAfter xs
    → AllPairs NotAfter ys
    → Perm xs ys
    → xs ≡ ys
in_order_unique [] [] c d o p perm = refl
in_order_unique [] (y ∷ ys) c d o p perm =
    let same = length-perm perm in absurd (omega (arith, same))
in_order_unique (x ∷ xs) [] c d o p perm =
    let same = length-perm perm in absurd (omega (arith, same))
in_order_unique (x ∷ xs) (y ∷ ys) c d o p perm =
    let head : x ≡ y =
      heads-equal x y xs ys c.0 d.0 o.0 p.0 ((Perm.mem_iff {a = x} perm).0 mem-cons_self)
        ((Perm.mem_iff {a = y} perm).1 mem-cons_self) in
    let rest : Perm (x ∷ xs) (x ∷ ys) = subst (λ z. Perm (x ∷ xs) (z ∷ ys)) (sym head) perm in
    rw head (ap (λ zs. y ∷ zs) (in_order_unique xs ys c.1 d.1 o.1 p.1 (Perm.cons_inv rest)))

sorted-same : (xs : List Bytes) → IsAscending xs → sorted xs ≡ xs
sorted-same xs a =
    in_order_unique (sorted xs) xs (sorted-IsCanonical xs a.canonical) a.canonical
      (sorted-ordered xs a.canonical) (in_order xs a.canonical a.ordered)
      (sorts xs a.canonical).perm
  where
    in_order : (xs : List Bytes) → All IsCanonical xs → AllPairs Before xs → AllPairs NotAfter xs
    in_order [] c o = tt
    in_order (x ∷ xs) c o = (
      All-map (λ y p. Before-asym x y c.0 p.0 p.1) xs (All-zip IsCanonical (Before x) xs c.1 o.0),
      in_order xs c.1 o.1,
    )

index_oids-no_tables : (es : List OidEntry) → index_oids es [] ≡ sorted (plain_oids es)
unfolding index_oids quick_sort_all quick_sort
index_oids-no_tables es = append-nil (sorted (plain_oids es))

module _ (odb : OidDatabase) (a : IsAscending odb.sorted_oids) (consistent : IsConsistent odb)
    (none_of_table : NoTables odb.sorted_oids) where
  abbrev built : OidIndexManager
  built = build_index odb new_oid_index_manager

  entries-oids : map oid_of (collect_entries odb) ≡ odb.sorted_oids
  unfolding collect_entries walk
  entries-oids = kept_entries-oids odb odb.sorted_oids [] consistent.stored

  no_tables : detect_table_structure (collect_entries odb) ≡ []
  unfolding detect_table_structure
  no_tables =
      rw (no_table_found (collect_entries odb) (subst NoTables (sym entries-oids) none_of_table))
        refl

  plain-collected : plain_oids (collect_entries odb) ≡ odb.sorted_oids
  plain-collected =
      plain_oids-all (collect_entries odb) (subst NoTables (sym entries-oids) none_of_table)
      ∙ entries-oids

  built-sorted_oids : built.sorted_oids ≡ odb.sorted_oids
  unfolding build_index
  built-sorted_oids = rw no_tables (
      index_oids-no_tables (collect_entries odb)
      ∙ ap sorted plain-collected
      ∙ sorted-same odb.sorted_oids a)

  built-table_oids : built.table_oids ≡ []
  unfolding build_index new_oid_index_manager
  built-table_oids = rw no_tables refl

  built-is_table_oid : (oid : Bytes) → is_table_oid built oid ≡ false
  unfolding is_table_oid
  built-is_table_oid oid =
      rw built-table_oids (ground (arith, nothing_marked [] oid, lookup-nil {V = Bool} oid))

  pub built_get_next :
      All (λ oid. is_empty oid ≡ false) odb.sorted_oids
      → (oid : Bytes)
      → get_next (build_index odb new_oid_index_manager) odb oid
        ≡ answer odb (Database.get_next odb oid)
  built_get_next named oid =
      get_next-answer (build_index odb new_oid_index_manager) odb built-sorted_oids consistent named
        oid (built-is_table_oid oid)

  -- A database has its OIDs in ascending order, each with its value; none is empty, and none lies in a
  -- table. Then the index that `BuildIndex` makes of it answers for an OID in canonical form the first
  -- OID of the database that comes behind it, with its value there; and where none comes behind it, the
  -- empty OID and a value of type 2, which is that of an Integer.
  pub get_next-build_index :
      All (λ oid. is_empty oid ≡ false) odb.sorted_oids
      → (oid : Bytes) → IsCanonical oid
      → (next : Bytes) × IsNext odb.sorted_oids oid next
        × (get_next (build_index odb new_oid_index_manager) odb oid ≡ answer odb next)
  get_next-build_index named oid c =
      (Database.get_next odb oid, get_next-IsNext odb a oid c, built_get_next named oid)
