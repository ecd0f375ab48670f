-- ===== src/Datasets/Resolve.antt =====
-- internal/store/dataset_store.go: what a store of datasets resolves.
use go_snmpsim.Prelude.{
  ◌≡◌, ◌∙◌, Bool-cases, Option-cases, not, ◌&&◌, ◌||◌, ◌⊎◌, true, false, Option, none, some, inl,
  inr, List, [], ◌∷◌, ◌++◌, map, Bytes, bytes_eq, bytes_eq_iff, bytes_eq_refl, is_empty, arith,
  text_eq, lookup, lookup-put, put, lookup-nil, trim_space, if◌then◌else◌,
}
use go_snmpsim.Database.{OidDatabase}
use go_snmpsim.Routing.{elem}
use go_snmpsim.Routing.Paths.{elem-append}
use go_snmpsim.Datasets.{DatasetStore, unique_loop, load_one, load_all, new_dataset_store, resolve}

unique_loop-elem :
    (p : Bytes) (paths unique : List Bytes)
    → elem p (unique_loop paths unique) ≡ (elem p unique || elem p (map trim_space paths))
unfolding unique_loop
unique_loop-elem p [] unique = ground arith
unique_loop-elem p (path ∷ paths) unique =
    let q = trim_space path in
    ground (
      arith,
      unique_loop-elem p paths unique,
      unique_loop-elem p paths (unique ++ q ∷ []),
      elem-append p q unique,
      bytes_eq_iff q p,
    )

module _ {I : Type 0} (load : Bytes → Option OidDatabase) (build : OidDatabase → Option I) where
  -- The store has the dataset of a path, as it was loaded, with its index.
  pub record Holds (store : DatasetStore I) (p : Bytes) : Type 0 where
    pub db : OidDatabase
    pub idx : I
    pub loaded : load p ≡ some db
    pub built : build db ≡ some idx
    pub dataset : lookup p store.datasets ≡ some db
    pub index : lookup p store.indexes ≡ some idx

  -- A step that goes on.
  record Stored (store next : DatasetStore I) (path : Bytes) : Type 0 where
    db : OidDatabase
    idx : I
    loaded : load path ≡ some db
    built : build db ≡ some idx
    is_next : next ≡ record store {
      datasets = put path db store.datasets;
      indexes = put path idx store.indexes;
    }

  load_one-Stored :
      (path : Bytes) (store next : DatasetStore I)
      → load_one load build path store ≡ some next
      → Stored store next path
  unfolding load_one
  load_one-Stored path store next e = elim (Option-cases (load path)) [
    | inl f ↦ absurd (ground (arith, rw (f, load_one) at e))
    | inr (db, f) ↦ elim (Option-cases (build db)) [
      | inl g ↦ absurd (ground (arith, rw (f, g, load_one) at e))
      | inr (idx, g) ↦
          let opened = rw (f, g, load_one) at e in
          record { db = db; idx = idx; loaded = f; built = g; is_next = cc }
    ]
  ]

  -- What a step leaves at a path: what it loaded there, or what was there.
  Stored-Holds :
      (p path : Bytes) (store next : DatasetStore I)
      → Stored store next path
      → (bytes_eq path p ≡ true → Holds next p)
        × (bytes_eq path p ≡ false
            → (lookup p next.datasets ≡ lookup p store.datasets)
              × (lookup p next.indexes ≡ lookup p store.indexes))
  Stored-Holds p path store next s =
      let at_dataset = lookup-put path p s.db store.datasets in
      let at_index = lookup-put path p s.idx store.indexes in
      (
        λ same. record {
          db = s.db;
          idx = s.idx;
          loaded = rw ((bytes_eq_iff path p).0 same) at s.loaded;
          built = s.built;
          dataset = rw (s.is_next, at_dataset, same);
          index = rw (s.is_next, at_index, same);
        },
        λ other. (rw (s.is_next, at_dataset, other), rw (s.is_next, at_index, other)),
      )

  load_all-Holds :
      (paths : List Bytes) (store out : DatasetStore I)
      → load_all load build paths store ≡ some out
      → (out.default_path ≡ store.default_path)
        × ((p : Bytes)
            → (elem p paths ≡ true → Holds out p)
              × (elem p paths ≡ false
                  → (lookup p out.datasets ≡ lookup p store.datasets)
                    × (lookup p out.indexes ≡ lookup p store.indexes)))
  unfolding load_all
  load_all-Holds [] store out e = (cc, λ p. (λ h. cc, λ h. (cc, cc)))
  load_all-Holds (path ∷ paths) store out e = elim (Option-cases (load_one load build path store)) [
    | inl f ↦ absurd (ground (arith, rw (f, load_all) at e))
    | inr (next, f) ↦
        let step = load_one-Stored path store next f in
        let rest = load_all-Holds paths next out (rw (f, load_all) at e) in
        (
          rest.0 ∙ rw step.is_next,
          λ p.
              let (holds, keeps) = Stored-Holds p path store next step in
              elim (Bool-cases (elem p paths)) [
                | inl later ↦ ((λ h. (rest.1 p).0 later), λ h. absurd (ground arith))
                | inr none_later ↦
                    let old = (rest.1 p).1 none_later in
                    (
                      λ h.
                          let n = holds (ground arith) in
                          record {
                            db = n.db;
                            idx = n.idx;
                            loaded = n.loaded;
                            built = n.built;
                            dataset = old.0 ∙ n.dataset;
                            index = old.1 ∙ n.index;
                          },
                      λ h. let k = keeps (ground arith) in (old.0 ∙ k.0, old.1 ∙ k.1),
                    )
              ],
        )
  ]

-- A path that is blank or unknown stands for the default path.
resolve-default :
    {I : Type 0} (store : DatasetStore I) (path d : Bytes) (db : OidDatabase) (idx : I)
    → store.default_path ≡ d
    → lookup d store.datasets ≡ some db
    → lookup d store.indexes ≡ some idx
    → (is_empty (trim_space path) ≡ true) ⊎ (lookup (trim_space path) store.datasets ≡ none)
    → resolve (some store) path ≡ (some db, some idx)
unfolding resolve
resolve-default store path d db idx e f g (inl blank) = rw (resolve, blank, e, f, e, g)
resolve-default store path d db idx e f g (inr unknown) =
    elim (Bool-cases (is_empty (trim_space path))) [
      | inl blank ↦ rw (resolve, blank, e, f, e, g)
      | inr named ↦ rw (resolve, named, unknown, e, f, e, g)
    ]

-- If the datasets of all given paths are loaded and indexed, then a store made of them resolves a path
-- that is among them, without its outer white space, to its dataset and index, and every other path to
-- those of the default path; it never resolves to nothing.
pub resolve-new_dataset_store :
    {I : Type 0} (load : Bytes → Option OidDatabase) (build : OidDatabase → Option I)
    (default_path : Bytes) (extra_paths : List Bytes) (store : DatasetStore I) (path : Bytes)
    → new_dataset_store load build default_path extra_paths ≡ some store
    → let q = trim_space path in
      let p =
        if not (is_empty q) && elem q (map trim_space (default_path ∷ extra_paths))
        then q
        else trim_space default_path in
      (db : OidDatabase) × (idx : I) × (load p ≡ some db)
      × (build db ≡ some idx)
      × (resolve (some store) path ≡ (some db, some idx))
unfolding new_dataset_store resolve
resolve-new_dataset_store load build default_path extra_paths store path e =
    let q = trim_space path in
    let paths = default_path ∷ extra_paths in
    let (default, holds) = load_all-Holds load build (unique_loop paths []) _ store e in
    let first = (holds (trim_space default_path)).0 (
      ground (
        arith,
        unique_loop-elem (trim_space default_path) paths [],
        bytes_eq_refl (trim_space default_path),
      )) in
    elim (Bool-cases (not (is_empty q) && elem q (map trim_space paths))) [
      | inl listed ↦
          let n = (holds q).0 (ground (arith, unique_loop-elem q paths [])) in
          let named : is_empty q ≡ false = ground arith in
          (n.db, n.idx, rw listed n.loaded, n.built, rw (resolve, named, n.dataset, n.index))
      | inr other ↦ (
        first.db,
        first.idx,
        rw other first.loaded,
        first.built,
        resolve-default store path (trim_space default_path) first.db first.idx default
            first.dataset first.index
            (elim (Bool-cases (is_empty q)) [
              | inl blank ↦ inl blank
              | inr named ↦ inr (
                  ((holds q).1 (ground (arith, unique_loop-elem q paths []))).0
                  ∙ lookup-nil {V = OidDatabase} q)
            ]),
      )
    ]
