-- ===== src/Database/Consistent.antt =====
-- internal/store/database.go: the list of OIDs against the stored values, and `GetAll`.
use mathlib.Core.HLevel.{¬_prop, hedberg}
use mathlib.Core.Logic.{◌∨₁◌}
use mathlib.Core.Logic.Or
use mathlib.Core.List.{not-mem-nil, mem-cons, mem-cons_self, mem-append}
use go_snmpsim.Prelude.{
  ◌≡◌, ◌≢◌, refl, ap, sym, List, [], ◌∷◌, Bytes, bytes_eq, bytes_eq_iff, All, arith, Bool-cases,
  inl, inr, ◌⊎◌, Option, none, Option-cases, Map, text_eq, lookup, put, lookup-put, lookup-nil, Mem,
  ◌↔◌,
}
use go_snmpsim.Oid.Render.{IsCanonical}
use go_snmpsim.Snmp.{Asn1Ber-discrete, Value-discrete, OidValue}
use go_snmpsim.Database.{
  OidDatabase, new_oid_database, get, insert, get_all_from, get_all, sort_oids, shard_for,
}
use go_snmpsim.Database.Sorting.{sort_oids-IsAscending}
use go_snmpsim.Database.Shards.{IsSharded, get-insert, get-new, new-IsSharded, insert-IsSharded}

-- What the database stores it lists, and what it lists it stores.
pub record IsConsistent (odb : OidDatabase) : Type 0 where
  pub sharded : IsSharded odb
  pub listed : (oid : Bytes) → get odb oid ≢ none → Mem oid odb.sorted_oids
  pub stored : (oid : Bytes) → Mem oid odb.sorted_oids → get odb oid ≢ none

pub new-IsConsistent : IsConsistent new_oid_database
unfolding new_oid_database
new-IsConsistent = record {
  sharded = new-IsSharded;
  listed = λ oid h. absurd (h (get-new oid));
  stored = λ oid m. absurd (not-mem-nil m);
}

mem-insert :
    (odb : OidDatabase) (oid : Bytes) (value : OidValue) (j : Bytes)
    → Mem j (insert oid value odb).sorted_oids ↔ (Mem j odb.sorted_oids ∨₁ Mem j (oid ∷ []))
unfolding insert
mem-insert odb oid value j = mem-append

-- `Insert` keeps the list of OIDs and the stored values in step.
pub insert-IsConsistent :
    (odb : OidDatabase)
    → IsConsistent odb
    → (oid : Bytes) (value : OidValue) → IsConsistent (insert oid value odb)
insert-IsConsistent odb h oid value = record {
  sharded = insert-IsSharded odb h.sharded oid value;
  listed = λ j n. (mem-insert odb oid value j).1 (elim (Bool-cases (bytes_eq oid j)) [
    | inl same ↦ Or.inr (rw ((bytes_eq_iff oid j).0 same) mem-cons_self)
    | inr other ↦ Or.inl (h.listed j (λ e. n (rw (get-insert odb h.sharded oid value j, other) e)))
  ]);
  stored = λ j m.
      Or.elim ¬_prop ((mem-insert odb oid value j).0 m)
        (λ old. ground (arith, get-insert odb h.sharded oid value j, h.stored j old))
        (λ new.
          Or.elim ¬_prop (mem-cons.0 new)
            (λ e. ground (arith, get-insert odb h.sharded oid value j, bytes_eq_iff oid j, sym e))
            (λ none_left. absurd (not-mem-nil none_left)));
}

pub get-sort_oids : (odb : OidDatabase) (oid : Bytes) → get (sort_oids odb) oid ≡ get odb oid
unfolding sort_oids get shard_for
get-sort_oids odb oid = refl

-- If every OID is in canonical form, `SortOIDs` keeps the list of OIDs and the stored values in step.
pub sort_oids-IsConsistent :
    (odb : OidDatabase)
    → All IsCanonical odb.sorted_oids
    → IsConsistent odb
    → IsConsistent (sort_oids odb)
sort_oids-IsConsistent odb c h =
    let same = (sort_oids-IsAscending odb c).1 in
    record {
      sharded = unfold sort_oids in record { some_shard = h.sharded.some_shard };
      listed = λ oid n. (same oid).1 (h.listed oid (rw get-sort_oids at n));
      stored = λ oid m. rw get-sort_oids (h.stored oid ((same oid).0 m));
    }

-- The loop of `GetAll` keeps what it has, and adds only stored values.
get_all_from-lookup :
    (odb : OidDatabase) (result : Map Bytes OidValue) (oids : List Bytes) (j : Bytes)
    → (lookup j (get_all_from odb result oids) ≡ lookup j result)
      ⊎ (lookup j (get_all_from odb result oids) ≡ get odb j)
unfolding get_all_from
get_all_from-lookup odb result [] j = inl refl
get_all_from-lookup odb result (oid ∷ oids) j = elim (Option-cases (get odb oid)) [
  | inl e ↦ rw (e, get_all_from) (get_all_from-lookup odb result oids j)
  | inr (value, e) ↦
      rw (e, get_all_from)
        (ground (
          arith,
          get_all_from-lookup odb (put oid value result) oids j,
          lookup-put oid j value result,
          bytes_eq_iff oid j,
        ))
]

values_set : IsSet (Option OidValue)
values_set = hedberg Option-discrete
  where
    OidValue-discrete : Discrete OidValue
    OidValue-discrete = hlevel (Asn1Ber-discrete, Value-discrete)

    Option-discrete : Discrete (Option OidValue)
    Option-discrete = hlevel OidValue-discrete

-- A listed OID is found with its stored value.
get_all_from-listed :
    (odb : OidDatabase) (result : Map Bytes OidValue) (oids : List Bytes) (j : Bytes)
    → get odb j ≢ none
    → Mem j oids
    → lookup j (get_all_from odb result oids) ≡ get odb j
unfolding get_all_from
get_all_from-listed odb result [] j n m = absurd (not-mem-nil m)
get_all_from-listed odb result (oid ∷ oids) j n m = elim (Option-cases (get odb oid)) [
  | inl e ↦
      rw (e, get_all_from)
        (Or.elim (values_set _ _) (mem-cons.0 m) (λ same. absurd (n (rw same e)))
          (get_all_from-listed odb result oids j n))
  | inr (value, e) ↦
      rw (e, get_all_from)
        (Or.elim (values_set _ _) (mem-cons.0 m)
          (λ same. ground (
            arith,
            get_all_from-lookup odb (put oid value result) oids j,
            lookup-put oid j value result,
            bytes_eq_iff oid j,
            ap (get odb) same,
            sym same,
          ))
          (get_all_from-listed odb (put oid value result) oids j n))
]

-- In a database whose list of OIDs and stored values are in step, `GetAll` returns the map that `Get` reads.
pub lookup-get_all :
    (odb : OidDatabase) → IsConsistent odb → (oid : Bytes) → lookup oid (get_all odb) ≡ get odb oid
unfolding get_all
lookup-get_all odb h oid = elim (Option-cases (get odb oid)) [
  | inl e ↦
      ground (arith, get_all_from-lookup odb [] odb.sorted_oids oid, lookup-nil {V = OidValue} oid)
  | inr (value, e) ↦
      let n : get odb oid ≢ none = λ f. ground arith in
      get_all_from-listed odb [] odb.sorted_oids oid n (h.listed oid n)
]
