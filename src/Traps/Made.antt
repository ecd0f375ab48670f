-- ===== src/Traps/Made.antt =====
-- internal/traps/traps.go: what a new manager decides by.
use go_snmpsim.Prelude.{
  ◌≡◌, ◌∙◌, refl, ap, Bool, Option, none, some, Option-cases, List, [], ◌∷◌, Bytes, codes, bytes_eq,
  Bool-cases, inl, inr, ◌&&◌, not,
}
use go_snmpsim.Traps.{
  Config, Manager, on_set_of, normalize_version, normalize, manager_of, new_manager, v3_is_sound,
  finish, with_defaults,
}
use go_snmpsim.Traps.Targets.{normalize_targets}

-- What a manager decides by, of the configuration that `Normalize` leaves.
abbrev pub decided : Config → Option Config → Bool × List Bytes
decided cfg none = (cfg.on_variation, cfg.on_set_oids)
decided cfg (some c) = (c.on_variation, c.on_set_oids)

-- `Normalize` keeps what a manager decides by.
record Keeps (cfg : Config) (o : Option Config) : Type 0 where
  same : decided cfg o ≡ decided cfg none

finish-Keeps : (cfg v : Config) → Keeps cfg (some v) → Keeps cfg (finish v)
finish-Keeps cfg v k = elim (Bool-cases (bytes_eq v.version (codes "v2c"))) [
  | inl e ↦ rw e (record { same = k.same })
  | inr e ↦ elim (Bool-cases (v3_is_sound v)) [
    | inl f ↦ rw (e, f) k
    | inr f ↦ rw (e, f) (record { same = refl })
  ]
]

checked-Keeps :
    (cfg v : Config) (targets : List Bytes)
    → Keeps cfg (some v)
    → Keeps cfg (elim targets [
      | [] ↦ some v
      | t ∷ ts ↦ elim (normalize_targets (t ∷ ts)) [
        | none ↦ none
        | some checked ↦ finish (with_defaults v checked)
      ]
    ])
checked-Keeps cfg v [] k = k
checked-Keeps cfg v (t ∷ ts) k = elim (Option-cases (normalize_targets (t ∷ ts))) [
  | inl f ↦ rw f (record { same = refl })
  | inr (checked, f) ↦ rw f (finish-Keeps cfg (with_defaults v checked) (record { same = k.same }))
]

normalize-Keeps : (cfg : Config) → Keeps cfg (normalize cfg)
unfolding normalize normalize_version
normalize-Keeps cfg =
    let v = normalize_version cfg in
    let k : Keeps cfg (some v) = record { same = refl } in
    elim (Bool-cases
      (not (bytes_eq v.version (codes "v2c")) && not (bytes_eq v.version (codes "v3")))) [
        | inl e ↦ rw e (record { same = refl })
        | inr e ↦ rw e (checked-Keeps cfg v cfg.targets k)
      ]

-- A manager that decides so, with an empty queue.
abbrev pub manager_from : Bool × List Bytes → Manager
manager_from (on, oids) = record { on_variation = on; on_set_oids = on_set_of oids; queue = [] }

manager_of-fields :
    (c : Config) (targets : List Bytes) (m : Manager)
    → manager_of c targets ≡ some m
    → m ≡ manager_from (decided c (some c))
unfolding manager_of
manager_of-fields c [] m e = let no : none ≡ some m = e in cc
manager_of-fields c (t ∷ ts) m e = cc

pub new_manager-fields :
    (cfg : Config) (m : Manager)
    → new_manager cfg ≡ some (some m)
    → m ≡ manager_from (decided cfg none)
unfolding new_manager
new_manager-fields cfg m made = elim (Option-cases (normalize cfg)) [
  | inl e ↦ let no : none ≡ some (some m) = rw (new_manager, e) at made in cc
  | inr (c, e) ↦
      let same : some (manager_of c c.targets) ≡ some (some m) = rw (new_manager, e) at made in
      let k : Keeps cfg (some c) = rw (← e) (normalize-Keeps cfg) in
      let is = manager_of-fields c c.targets m cc in is ∙ ap manager_from k.same
]
