-- ===== src/Labs/Engines.antt =====
-- cmd/snmpsim-api/main.go: a resource manager when engines are added and deleted.
use go_snmpsim.Prelude.{
  ℕ, suc, ◌^◌, ◌<◌, ◌≡◌, refl, true, false, Option, none, some, [], ◌∷◌, Bytes, bytes_eq,
  bytes_eq_iff, text_eq, Map, lookup, put, erase, lookup-put, lookup-erase, arith, Bool-cases,
  Option-cases, inl, inr,
}
use go_snmpsim.Labs
use go_snmpsim.Labs.{
  Lab, LabEngine, Endpoint, User, Dataset, Status, stopped, running, is_running, ResourceManager,
  new_resource_manager, Host, numbered, next_of, set_status, start_begin, start_finish, in_use,
  answered,
}
use go_snmpsim.Labs.Keys.{is_there}
use go_snmpsim.Labs.Sound.{IsSound, backed, spent_with-IsSound, later-IsSound}

-- The engine of a lab that is found and runs is in use.
in_use-lookup :
    (id j : Bytes) (labs : Map Bytes Lab) {lab : Lab}
    → in_use id labs ≡ false
    → lookup j labs ≡ some lab
    → is_running lab.status ≡ true
    → bytes_eq lab.engine_id id ≡ false
unfolding in_use lookup
in_use-lookup id j [] free e on = cc
in_use-lookup id j ((key, lab) ∷ labs) {lab = at} free e on = elim (Bool-cases (bytes_eq key j)) [
  | inl same ↦
      let is : some lab ≡ some at = rw same at e in
      let on_here : is_running lab.status ≡ true = cc in
      let here : bytes_eq lab.engine_id id ≡ false = ground (arith) in cc
  | inr other ↦
      let below : lookup j labs ≡ some at = rw other at e in
      in_use-lookup id j labs (ground arith) below on
]

backed-put :
    (id : Bytes) (eng : LabEngine) (engines : Map Bytes LabEngine) (o : Option Lab)
    → backed engines o ≡ true
    → backed (put id eng engines) o ≡ true
backed-put id eng engines none h = refl
backed-put id eng engines (some lab) h = elim (Bool-cases (is_running lab.status)) [
  | inr off ↦ rw off refl
  | inl on ↦ elim (Bool-cases (bytes_eq id lab.engine_id)) [
    | inl e ↦ rw (on, lookup-put, e) refl
    | inr e ↦
        let was : is_there (lookup lab.engine_id engines) ≡ true = rw on at h in
        rw (on, lookup-put, e) was
  ]
]

backed-erase :
    (id : Bytes) (engines : Map Bytes LabEngine) (o : Option Lab)
    → ((lab : Lab)
        → o ≡ some lab
        → is_running lab.status ≡ true
        → bytes_eq id lab.engine_id ≡ false)
    → backed engines o ≡ true
    → backed (erase id engines) o ≡ true
backed-erase id engines none free h = refl
backed-erase id engines (some lab) free h = elim (Bool-cases (is_running lab.status)) [
  | inr off ↦ rw off refl
  | inl on ↦
      let was : is_there (lookup lab.engine_id engines) ≡ true = rw on at h in
      let other = free lab refl on in rw (on, lookup-erase, other) was
]

differ_flip : (s t : Bytes) → bytes_eq s t ≡ false → bytes_eq t s ≡ false
differ_flip s t e = ground (arith, bytes_eq_iff s t, bytes_eq_iff t s)

pub there : {A : Type 0} {a : A} (o : Option A) → o ≡ some a → is_there o ≡ true
there o e = rw e

module _ {S : Type 0} (n : ℕ) (small : n < 2 ^ 63) (rm : ResourceManager S) (h : IsSound n rm) where
  pub put_engine-IsSound :
      (id : Bytes) (eng : LabEngine)
      → IsSound
          (suc n)
          (record rm { engines = put id eng rm.engines; next_id = next_of rm.next_id })
  put_engine-IsSound id eng =
      let spent = spent_with-IsSound n small rm h rm.endpoints rm.users rm.datasets in
      record {
        counted = spent.counted;
        simulated = spent.simulated;
        cancellable = spent.cancellable;
        distinct = spent.distinct;
        engined = λ j. backed-put id eng rm.engines (lookup j rm.labs) (h.engined j);
        fresh = spent.fresh;
      }

  pub delete_engine-IsSound : (id : Bytes) → IsSound (suc n) (Labs.delete_engine id rm).1
  unfolding Labs.delete_engine
  delete_engine-IsSound id = elim (Option-cases (lookup id rm.engines)) [
    | inl e ↦ rw (Labs.delete_engine, e) (later-IsSound n small rm h)
    | inr (eng, e) ↦ elim (Bool-cases (in_use id rm.labs)) [
      | inl used ↦ rw (Labs.delete_engine, e, used) (later-IsSound n small rm h)
      | inr free ↦
          rw (Labs.delete_engine, e, free)
            (let later = later-IsSound n small rm h in
              record {
                counted = later.counted;
                simulated = later.simulated;
                cancellable = later.cancellable;
                distinct = later.distinct;
                engined = λ j.
                    backed-erase id rm.engines (lookup j rm.labs)
                      (λ lab at on.
                        differ_flip lab.engine_id id (in_use-lookup id j rm.labs free at on))
                      (h.engined j);
                fresh = later.fresh;
              })
    ]
  ]
