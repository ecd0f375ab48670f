-- ===== src/Datasets.antt =====
-- internal/store/dataset_store.go: the datasets by their paths. Reading a dataset from its file and
-- building its index are parameters; the type of an index manager is one, too.
pub mod Resolve
pub mod Tests
use go_snmpsim.Prelude.{
  Bool, true, false, Option, none, some, List, [], ◌∷◌, ◌++◌, Bytes, is_empty, Map, text_eq, lookup,
  put, trim_space, if◌then◌else◌,
}
use go_snmpsim.Database.{OidDatabase}
use go_snmpsim.Routing.{elem}

pub record DatasetStore (I : Type 0) : Type 0 where
  pub default_path : Bytes
  pub datasets : Map Bytes OidDatabase
  pub indexes : Map Bytes I

-- The first loop of `NewDatasetStore`; `seen` has the paths of `unique`.
unfoldable pub unique_loop : List Bytes → List Bytes → List Bytes
unique_loop [] unique = unique
unique_loop (path ∷ paths) unique =
    let p = trim_space path in
    let skip = unique_loop paths unique in
    let add = unique_loop paths (unique ++ p ∷ []) in if elem p unique then skip else add

module _ {I : Type 0} where
  module _ (load : Bytes → Option OidDatabase) (build : OidDatabase → Option I) where
    unfoldable pub load_one : Bytes → DatasetStore I → Option (DatasetStore I)
    load_one path store = elim (load path) [
      | none ↦ none
      | some db ↦ elim (build db) [
        | none ↦ none
        | some idx ↦ some (record store {
          datasets = put path db store.datasets;
          indexes = put path idx store.indexes;
        })
      ]
    ]

    -- The second loop; the first error ends it.
    unfoldable pub load_all : List Bytes → DatasetStore I → Option (DatasetStore I)
    unfolding load_one
    load_all [] store = some store
    load_all (path ∷ paths) store = elim (load_one path store) [
      | none ↦ none
      | some next ↦ load_all paths next
    ]

    unfoldable pub new_dataset_store : Bytes → List Bytes → Option (DatasetStore I)
    unfolding unique_loop load_all
    new_dataset_store default_path extra_paths =
        load_all (unique_loop (default_path ∷ extra_paths) [])
          (record { default_path = trim_space default_path; datasets = []; indexes = [] })

  -- The dataset at a path, where there is one.
  abbrev at_path : DatasetStore I → Bytes → Option (Option OidDatabase × Option I)
  at_path store path = elim (lookup path store.datasets) [
    | none ↦ none
    | some db ↦ some (some db, lookup path store.indexes)
  ]

  unfoldable pub resolve : Option (DatasetStore I) → Bytes → Option OidDatabase × Option I
  resolve none path = (none, none)
  resolve (some store) path =
      let p = trim_space path in
      elim (if is_empty p then none else at_path store p) [
        | some found ↦ found
        | none ↦ elim (at_path store store.default_path) [
          | some found ↦ found
          | none ↦ elim (at_path store []) [ some found ↦ found | none ↦ (none, none) ]
        ]
      ]
