-- ===== src/Database/Shards.antt =====
-- internal/store/database.go: the shards of the database as one map.
use go_snmpsim.Prelude.{
  ℕ, zero, suc, ◌<◌, ◌≡◌, refl, ap, none, some, [], Bytes, bytes_eq, bytes_eq_iff, text_eq, lookup,
  put, lookup-put, length, length-set, get_or, replicate, arith, ◌==◌, if◌then◌else◌,
}
use go_snmpsim.Sort.Swap.{get_or-set}
use go_snmpsim.Snmp.{OidValue}
use go_snmpsim.Database.{
  OidDatabase, new_oid_database, shard_index_for, shard_for, write_shard, insert, get,
}

-- There is a shard to write to.
pub record IsSharded (odb : OidDatabase) : Type 0 where
  pub some_shard : 0 < length odb.shards

get_or-replicate {ℓ} : {A : Type ℓ} (n i : ℕ) (a : A) → get_or (replicate n a) i a ≡ a
get_or-replicate zero i a = refl
get_or-replicate (suc n) zero a = refl
get_or-replicate (suc n) (suc i) a = get_or-replicate n i a

pub new-IsSharded : IsSharded new_oid_database
unfolding new_oid_database
new-IsSharded = record { some_shard = omega arith }

-- A new database is empty.
pub get-new : (oid : Bytes) → get new_oid_database oid ≡ none
unfolding get new_oid_database shard_for
get-new oid = ap (lookup oid) (get_or-replicate 64 (shard_index_for new_oid_database oid) [])

-- The index of a shard is in range.
pub shard_index_for-lt :
    (odb : OidDatabase) (oid : Bytes) → IsSharded odb → shard_index_for odb oid < length odb.shards
unfolding shard_index_for
shard_index_for-lt odb oid h = omega (arith, h.some_shard)

module _ (odb : OidDatabase) (h : IsSharded odb) (oid : Bytes) (value : OidValue) where
  abbrev written : OidDatabase
  written = write_shard odb (shard_index_for odb oid) oid value

  shard_for-written :
      (j : Bytes)
      → shard_for written j ≡ (
          if shard_index_for odb oid == shard_index_for odb j
          then put oid value (shard_for odb oid)
          else shard_for odb j)
  unfolding shard_for shard_index_for write_shard
  shard_for-written j = rw length-set (
      get_or-set [] odb.shards (shard_index_for odb oid) (shard_index_for odb j) _
        (shard_index_for-lt odb oid h))

  pub get-written : (j : Bytes) → get written j ≡ (if bytes_eq oid j then some value else get odb j)
  unfolding get
  get-written j = rw shard_for-written (
      ground (
        arith,
        lookup-put oid j value (shard_for odb oid),
        bytes_eq_iff oid j,
        ap (shard_index_for odb) {x = oid} {y = j},
      ))

  pub written-IsSharded : IsSharded written
  unfolding write_shard
  written-IsSharded = record { some_shard = rw length-set h.some_shard }

-- `Get` after `Insert` returns the value that was inserted, and for every other OID what it
-- returned before, whichever shards the two are hashed to.
pub get-insert :
    (odb : OidDatabase)
    → IsSharded odb
    → (oid : Bytes) (value : OidValue) (j : Bytes)
    → get (insert oid value odb) j ≡ (if bytes_eq oid j then some value else get odb j)
unfolding insert get shard_for
get-insert odb h oid value j = get-written odb h oid value j

pub insert-IsSharded :
    (odb : OidDatabase)
    → IsSharded odb
    → (oid : Bytes) (value : OidValue) → IsSharded (insert oid value odb)
unfolding insert
insert-IsSharded odb h oid value = record {
  some_shard = (written-IsSharded odb h oid value).some_shard;
}
