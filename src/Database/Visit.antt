-- ===== src/Database/Visit.antt =====
-- internal/store/database.go: the loop of `Walk` and its callback.
use go_snmpsim.Prelude.{Bool, List, [], ◌∷◌, Bytes, Bool-cases, Option-cases, inl, inr}
use go_snmpsim.Snmp.{OidValue}
use go_snmpsim.Database.{OidDatabase, get, walk, walk_loop}

-- What each call of a walk's callback keeps holds at its end.
walk_loop-keeps {ℓ} :
    {S : Type ℓ} (P : S → Type 0) (odb : OidDatabase) (callback : Bytes → OidValue → S → S × Bool)
    → ((oid : Bytes) (value : OidValue) (s : S) → P s → P (callback oid value s).0)
    → (oids : List Bytes) (s : S) → P s
    → P (walk_loop odb callback oids s)
unfolding walk_loop
walk_loop-keeps P odb callback keep [] s h = h
walk_loop-keeps {S} P odb callback keep (oid ∷ oids) s h = elim (Option-cases (get odb oid)) [
  | inl e ↦ rw (walk_loop, e) (walk_loop-keeps P odb callback keep oids s h)
  | inr (value, e) ↦
      let r : S × Bool = callback oid value s in
      elim (Bool-cases r.1) [
        | inl more ↦
            rw (walk_loop, e, more)
              (walk_loop-keeps P odb callback keep oids r.0 (keep oid value s h))
        | inr stop ↦ rw (walk_loop, e, stop) (keep oid value s h)
      ]
]

pub walk-keeps {ℓ} :
    {S : Type ℓ} (P : S → Type 0) (odb : OidDatabase) (callback : Bytes → OidValue → S → S × Bool)
    → ((oid : Bytes) (value : OidValue) (s : S) → P s → P (callback oid value s).0)
    → (s : S) → P s
    → P (walk odb callback s)
unfolding walk
walk-keeps P odb callback keep s h = walk_loop-keeps P odb callback keep odb.sorted_oids s h
