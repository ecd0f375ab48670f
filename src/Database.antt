-- ===== src/Database.antt =====
-- internal/store/database.go: OIDDatabase. Its locks are left out: each operation is one step. A Go
-- map is an association list; the loops over maps visit it in the list's order.
pub mod Shards
pub mod Sorting
pub mod Next
pub mod Walk
pub mod Visit
pub mod Consistent
pub mod Loaded
pub mod Tests
use Prim.Native.Nat.{bit_xor}
use mathlib.Core.List.{foldl, map}
use go_snmpsim.Prelude.{
  ℕ, zero, suc, ◌+◌, ◌*◌, ◌%◌, ◌^◌, Bool, true, false, Option, none, some, List, [], ◌∷◌, ◌++◌,
  Bytes, bytes_eq, Map, nat_eq, text_eq, lookup, put, length, get_or, set, replicate, ltb,
  if◌then◌else◌, get_elem?,
}
use go_snmpsim.Sort.{quick_sort_all}
use go_snmpsim.Oid.{is_oid_less}
use go_snmpsim.Snmp.{OidValue}
use go_snmpsim.Positions.{search_oid_position}

abbrev default_shard_count : ℕ
default_shard_count = 64

pub record OidDatabase : Type 0 where
  pub shards : List (Map Bytes OidValue)
  pub sorted_oids : List Bytes

unfoldable pub new_oid_database : OidDatabase
new_oid_database = record { shards = replicate default_shard_count []; sorted_oids = [] }

-- FNV-1a in uint32.
fnv32a_from : ℕ → Bytes → ℕ
fnv32a_from h [] = h
fnv32a_from h (c ∷ s) = fnv32a_from ((bit_xor h c * 16777619) % 2 ^ 32) s

pub fnv32a : Bytes → ℕ
unfolding fnv32a_from
fnv32a s = fnv32a_from 2166136261 s

unfoldable pub shard_index_for : OidDatabase → Bytes → ℕ
unfolding fnv32a
shard_index_for odb oid = fnv32a oid % length odb.shards

unfoldable pub shard_for : OidDatabase → Bytes → Map Bytes OidValue
unfolding shard_index_for
shard_for odb oid = get_or odb.shards (shard_index_for odb oid) []

-- `shard.values[oid] = value`
pub write_shard : OidDatabase → ℕ → Bytes → OidValue → OidDatabase
write_shard odb i oid value = record odb {
  shards = set odb.shards i (put oid value (get_or odb.shards i []));
}

unfoldable pub insert : Bytes → OidValue → OidDatabase → OidDatabase
unfolding write_shard shard_index_for
insert oid value odb = record (write_shard odb (shard_index_for odb oid) oid value) {
  sorted_oids = odb.sorted_oids ++ oid ∷ [];
}

unfoldable pub get : OidDatabase → Bytes → Option OidValue
unfolding shard_for lookup
get odb oid = lookup oid (shard_for odb oid)

abbrev or_empty : Option (List (Bytes × OidValue)) → List (Bytes × OidValue)
or_empty none = []
or_empty (some l) = l

-- The first loop of `BatchInsert`: `shardBuckets[idx] = append(shardBuckets[idx], …)`.
bucket_entry :
    OidDatabase
    → Map ℕ (List (Bytes × OidValue))
    → Bytes × OidValue
    → Map ℕ (List (Bytes × OidValue))
bucket_entry odb buckets (oid, value) =
    let idx = shard_index_for odb oid in
    put idx (or_empty (lookup idx buckets) ++ (oid, value) ∷ []) buckets

write_bucket : OidDatabase → ℕ × List (Bytes × OidValue) → OidDatabase
unfolding write_shard
write_bucket odb (idx, bucket) = foldl (λ d e. write_shard d idx e.0 e.1) odb bucket

unfoldable pub batch_insert : Map Bytes OidValue → OidDatabase → OidDatabase
unfolding bucket_entry write_bucket
batch_insert entries odb =
    let buckets = foldl (bucket_entry odb) [] entries in
    let written = foldl write_bucket odb buckets in
    record written {
      sorted_oids = quick_sort_all [] is_oid_less (odb.sorted_oids ++ map (λ e. e.0) entries);
    }

-- The rest of `out` behind its last entry.
pub dedup_from : Bytes → List Bytes → List Bytes
dedup_from last [] = []
dedup_from last (oid ∷ oids) =
    let same = dedup_from last oids in
    let new = oid ∷ dedup_from oid oids in if bytes_eq oid last then same else new

-- What `SortOIDs` leaves of the sorted slice.
pub dedup_adjacent : List Bytes → List Bytes
unfolding dedup_from
dedup_adjacent [] = []
dedup_adjacent (oid ∷ oids) = oid ∷ dedup_from oid oids

unfoldable pub sort_oids : OidDatabase → OidDatabase
unfolding dedup_adjacent
sort_oids odb = record odb {
  sorted_oids = dedup_adjacent (quick_sort_all [] is_oid_less odb.sorted_oids);
}

-- The empty text is the end of the MIB.
unfoldable pub get_next : OidDatabase → Bytes → Bytes
get_next odb oid =
    let oids = odb.sorted_oids in
    let idx = search_oid_position oids oid in
    if ltb idx (length oids)
    then (if bytes_eq (get_or oids idx []) oid
        then (if ltb (idx + 1) (length oids) then get_or oids (idx + 1) [] else [])
        else get_or oids idx [])
    else []

-- The loop of `Walk`: the callback changes a state and says whether to go on.
unfoldable pub walk_loop {ℓ} :
    {S : Type ℓ} → OidDatabase → (Bytes → OidValue → S → S × Bool) → List Bytes → S → S
walk_loop odb callback [] s = s
walk_loop odb callback (oid ∷ oids) s = elim (get odb oid) [
  | none ↦ walk_loop odb callback oids s
  | some value ↦
      let r = callback oid value s in
      elim r.1 [ true ↦ walk_loop odb callback oids r.0 | false ↦ r.0 ]
]

unfoldable pub walk {ℓ} : {S : Type ℓ} → OidDatabase → (Bytes → OidValue → S → S × Bool) → S → S
unfolding walk_loop
walk odb callback s = walk_loop odb callback odb.sorted_oids s

-- The loop of `GetAll`.
get_all_from : OidDatabase → Map Bytes OidValue → List Bytes → Map Bytes OidValue
get_all_from odb result [] = result
get_all_from odb result (oid ∷ oids) = elim (get odb oid) [
  | none ↦ get_all_from odb result oids
  | some value ↦ get_all_from odb (put oid value result) oids
]

unfoldable pub get_all : OidDatabase → Map Bytes OidValue
unfolding get_all_from
get_all odb = get_all_from odb [] odb.sorted_oids
