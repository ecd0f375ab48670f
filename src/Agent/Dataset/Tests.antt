-- ===== src/Agent/Dataset/Tests.antt =====
-- A request that is routed to a second dataset.
use mathlib.Core.List.{map}
use go_snmpsim.Prelude.{
  ◌≡◌, refl, not, ◌&&◌, true, Option, none, some, List, [], ◌∷◌, Bytes, codes, is_empty, trim_space,
  text_eq, put, if◌then◌else◌,
}
use go_snmpsim.Sort.Stable.{best}
use go_snmpsim.Database.{OidDatabase}
use go_snmpsim.Routing.{Rule, RequestKey, rule_matches, priority, elem, new_router}
use go_snmpsim.Routing.Select.{all_named, path_of}
use go_snmpsim.Datasets.{DatasetStore, new_dataset_store}
use go_snmpsim.Agent.Dataset.{select_dataset, select_dataset-routed}

abbrev load : Bytes → Option OidDatabase
load path = some (record { shards = []; sorted_oids = path ∷ [] })

abbrev build : OidDatabase → Option Bytes
build db = some (codes "index")

abbrev own : Option OidDatabase × Option Bytes
own = (none, none)

abbrev two_paths : DatasetStore Bytes
two_paths = record {
  default_path = codes "a";
  datasets =
      (codes "a", record { shards = []; sorted_oids = codes "a" ∷ [] })
      ∷ (codes "b", record { shards = []; sorted_oids = codes "b" ∷ [] })
      ∷ [];
  indexes = (codes "a", codes "index") ∷ (codes "b", codes "index") ∷ [];
}

created : new_dataset_store load build (codes "a") (codes "b" ∷ []) ≡ some two_paths
unfolding new_dataset_store put trim_space
created = refl

abbrev rules : List Rule
rules =
    record {
      match = record {
        community = codes "public";
        context = [];
        engine_id = [];
        src_ip = [];
        dst_port = 0;
      };
      action = record { dataset_path = codes "b" };
    }
    ∷ []

abbrev key : RequestKey
key = record {
  community = codes "public";
  context = [];
  engine_id = [];
  src_ip = codes "10.0.0.1";
  dst_port = 161;
}

rules_named : all_named rules ≡ true
unfolding all_named trim_space
rules_named = refl

select_dataset-routed_example :
    let q = trim_space (path_of (best priority (λ rule. rule_matches rule.match key) rules)) in
    let p =
      if not (is_empty q) && elem q (map trim_space (codes "a" ∷ codes "b" ∷ []))
      then q
      else trim_space (codes "a") in
    (db : OidDatabase) × (idx : Bytes) × (load p ≡ some db)
    × (build db ≡ some idx)
    × (select_dataset own (new_router rules) (some two_paths) key ≡ (some db, some idx))
select_dataset-routed_example =
    select_dataset-routed load build (codes "a") (codes "b" ∷ []) two_paths own rules key created
      rules_named
