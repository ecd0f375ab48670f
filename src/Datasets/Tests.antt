-- ===== src/Datasets/Tests.antt =====
-- A store with two datasets.
use go_snmpsim.Prelude.{◌≡◌, refl, Option, some, [], ◌∷◌, Bytes, codes, trim_space, text_eq, put}
use go_snmpsim.Database.{OidDatabase}
use go_snmpsim.Datasets.{DatasetStore, new_dataset_store}

abbrev load : Bytes → Option OidDatabase
load path = some (record { shards = []; sorted_oids = path ∷ [] })

abbrev build : OidDatabase → Option Bytes
build db = some (codes "index")

abbrev two_paths : DatasetStore Bytes
two_paths = record {
  default_path = codes "a";
  datasets =
      (codes "a", record { shards = []; sorted_oids = codes "a" ∷ [] })
      ∷ (codes "b", record { shards = []; sorted_oids = codes "b" ∷ [] })
      ∷ [];
  indexes = (codes "a", codes "index") ∷ (codes "b", codes "index") ∷ [];
}

created : new_dataset_store load build (codes " a") (codes "b" ∷ codes "a" ∷ []) ≡ some two_paths
unfolding new_dataset_store put trim_space
created = refl
