-- ===== src/Agent/Dataset.antt =====
-- internal/agent/agent.go: selectDataset, which dataset answers a request.
pub mod Tests
use mathlib.Core.List.{map}
use go_snmpsim.Prelude.{
  ◌≡◌, refl, sym, ap, ◌∙◌, Bool, not, ◌&&◌, true, false, Option, none, some, Option-cases, inl, inr,
  List, [], ◌∷◌, Bytes, is_empty, trim_space, arith, if◌then◌else◌,
}
use go_snmpsim.Sort.Stable.{best}
use go_snmpsim.Database.{OidDatabase}
use go_snmpsim.Routing.{Rule, Router, RequestKey, rule_matches, priority, elem, new_router, select}
use go_snmpsim.Routing.Select.{all_named, path_of, path-new_router, new_router-some}
use go_snmpsim.Datasets.{DatasetStore, new_dataset_store, resolve}
use go_snmpsim.Datasets.Resolve.{resolve-new_dataset_store}
use go_snmpsim.Agent.Usm.{SnmpPacket}

-- The engine that a request is routed by.
unfoldable pub request_engine_id : (context_engine_id : Bytes) → SnmpPacket → Bytes
request_engine_id context_engine_id req =
    if req.is_version3
    then elim req.usm [
      | none ↦ context_engine_id
      | some usm ↦
          if is_empty usm.authoritative_engine_id
          then context_engine_id
          else usm.authoritative_engine_id
    ]
    else context_engine_id

module _ {I : Type 0} where
  -- `routedDB == nil` means the agent's own dataset.
  abbrev or_own :
      Option OidDatabase × Option I → Option OidDatabase × Option I → Option OidDatabase × Option I
  or_own own (none, idx) = own
  or_own own (some db, idx) = (some db, idx)

  unfoldable pub select_dataset :
      Option OidDatabase × Option I
      → Option Router
      → Option (DatasetStore I)
      → RequestKey
      → Option OidDatabase × Option I
  select_dataset own none store key = own
  select_dataset own (some router) none key = own
  select_dataset own (some router) (some store) key =
      or_own own (resolve (some store) (select (some router) key))

-- If every rule names a dataset and the store has loaded its paths, then a request is answered from
-- the dataset of the matching rule with the highest priority, the first among equals, if its path is
-- among those that were loaded, and otherwise from the dataset of the default path; the agent's own
-- dataset is not used.
pub select_dataset-routed :
    {I : Type 0} (load : Bytes → Option OidDatabase) (build : OidDatabase → Option I)
    (default_path : Bytes) (extra_paths : List Bytes) (store : DatasetStore I)
    (own : Option OidDatabase × Option I) (rules : List Rule) (key : RequestKey)
    → new_dataset_store load build default_path extra_paths ≡ some store
    → all_named rules ≡ true
    → let q = trim_space (path_of (best priority (λ rule. rule_matches rule.match key) rules)) in
      let p =
        if not (is_empty q) && elem q (map trim_space (default_path ∷ extra_paths))
        then q
        else trim_space default_path in
      (db : OidDatabase) × (idx : I) × (load p ≡ some db)
      × (build db ≡ some idx)
      × (select_dataset own (new_router rules) (some store) key ≡ (some db, some idx))
unfolding select_dataset
select_dataset-routed load build default_path extra_paths store own rules key e named =
    let chosen = path_of (best priority (λ rule. rule_matches rule.match key) rules) in
    let (db, idx, loaded, built, resolved) =
      resolve-new_dataset_store load build default_path extra_paths store chosen e in
    let (router, made) = new_router-some rules named in
    let path : select (some router) key ≡ chosen =
      ap (λ r. select r key) (sym made)
      ∙ path-new_router rules key
      ∙ ap (λ b. if b then chosen else []) named in
    (db, idx, loaded, built, rw (made, path, resolved))
