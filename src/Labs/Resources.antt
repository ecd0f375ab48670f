-- ===== src/Labs/Resources.antt =====
-- cmd/snmpsim-api/main.go: the endpoints, users and datasets that a resource manager keeps.
use go_snmpsim.Prelude.{
  ℕ, Option, none, some, List, map, Bytes, codes, text_eq, Map, lookup, put, erase,
}
use go_snmpsim.Labs.{
  Endpoint, User, Dataset, ResourceManager, Reply, refused, answered, numbered, next_of,
}

-- What the handlers for one resource answer: `map[id]`, and `delete(map, id)` for an id that is there.
module _ {A : Type 0} where
  unfoldable pub found : Option A → Reply A
  found none = refused 404
  found (some a) = answered 200 a

  unfoldable pub deleted : Bytes → Map Bytes A → ℕ × Map Bytes A
  deleted id m = elim (lookup id m) [ none ↦ (404, m) | some a ↦ (204, erase id m) ]

module _ {S : Type 0} where
  unfoldable pub create_endpoint :
      ℕ → Option (Bytes × Bytes × ℕ) → ResourceManager S → Reply Endpoint × ResourceManager S
  unfolding numbered
  create_endpoint now none rm = (refused 400, rm)
  create_endpoint now (some (name, address, port)) rm =
      let id = numbered (codes "endpoint") rm.next_id in
      let made : Endpoint = record {
        id = id;
        name = name;
        address = address;
        port = port;
        created_at = now;
      } in
      (
        answered 201 made,
        record rm { endpoints = put id made rm.endpoints; next_id = next_of rm.next_id },
      )

  unfoldable pub list_endpoints : ResourceManager S → Reply (List Endpoint)
  list_endpoints rm = answered 200 (map (λ entry. entry.1) rm.endpoints)

  unfoldable pub get_endpoint : Bytes → ResourceManager S → Reply Endpoint
  unfolding found
  get_endpoint id rm = found (lookup id rm.endpoints)

  unfoldable pub delete_endpoint : Bytes → ResourceManager S → ℕ × ResourceManager S
  unfolding deleted
  delete_endpoint id rm =
      let left = deleted id rm.endpoints in (left.0, record rm { endpoints = left.1 })

  unfoldable pub create_user :
      ℕ → Option (Bytes × Bytes) → ResourceManager S → Reply User × ResourceManager S
  unfolding numbered
  create_user now none rm = (refused 400, rm)
  create_user now (some (name, email)) rm =
      let id = numbered (codes "user") rm.next_id in
      let made : User = record { id = id; name = name; email = email; created_at = now } in
      (answered 201 made, record rm { users = put id made rm.users; next_id = next_of rm.next_id })

  unfoldable pub list_users : ResourceManager S → Reply (List User)
  list_users rm = answered 200 (map (λ entry. entry.1) rm.users)

  unfoldable pub get_user : Bytes → ResourceManager S → Reply User
  unfolding found
  get_user id rm = found (lookup id rm.users)

  unfoldable pub delete_user : Bytes → ResourceManager S → ℕ × ResourceManager S
  unfolding deleted
  delete_user id rm = let left = deleted id rm.users in (left.0, record rm { users = left.1 })

  unfoldable pub create_dataset :
      ℕ → Option (Bytes × Bytes × Bytes) → ResourceManager S → Reply Dataset × ResourceManager S
  unfolding numbered
  create_dataset now none rm = (refused 400, rm)
  create_dataset now (some (name, engine_id, file_path)) rm =
      let id = numbered (codes "dataset") rm.next_id in
      let made : Dataset = record {
        id = id;
        name = name;
        engine_id = engine_id;
        file_path = file_path;
        created_at = now;
      } in
      (
        answered 201 made,
        record rm { datasets = put id made rm.datasets; next_id = next_of rm.next_id },
      )

  unfoldable pub list_datasets : ResourceManager S → Reply (List Dataset)
  list_datasets rm = answered 200 (map (λ entry. entry.1) rm.datasets)

  unfoldable pub get_dataset : Bytes → ResourceManager S → Reply Dataset
  unfolding found
  get_dataset id rm = found (lookup id rm.datasets)

  unfoldable pub delete_dataset : Bytes → ResourceManager S → ℕ × ResourceManager S
  unfolding deleted
  delete_dataset id rm =
      let left = deleted id rm.datasets in (left.0, record rm { datasets = left.1 })
