-- ===== src/Labs/Ended.antt =====
-- cmd/snmpsim-api/main.go: the labs when the program shuts down.
use mathlib.Core.List.{foldl}
use go_snmpsim.Prelude.{
  some, none, sym, Option, bytes_eq_refl, bytes_eq_iff, ℕ, ◌≡◌, refl, ◌∙◌, false, [], ◌∷◌, Bytes,
  bytes_eq, text_eq, Map, lookup, Bool-cases, Option-cases, inl, inr, if◌then◌else◌,
}
use go_snmpsim.Labs.{Lab, stopped, ResourceManager, Host, set_status}
use go_snmpsim.Labs.Lifecycle.{stop_all, cancelled, shutdown}
use go_snmpsim.Labs.Keys.{IsMap, is_there, runs, lookup-set_status}
use go_snmpsim.Labs.Sound.{IsSound}

lookup-first :
    {A : Type 0} (id : Bytes) (a : A) (m : Map Bytes A) → lookup id ((id, a) ∷ m) ≡ some a
unfolding lookup
lookup-first id a m = rw (bytes_eq_refl id) refl

lookup-rest :
    {A : Type 0} (id j : Bytes) (a : A) (m : Map Bytes A) {b : A}
    → lookup id m ≡ none
    → lookup j m ≡ some b
    → lookup j ((id, a) ∷ m) ≡ some b
lookup-rest {A} id j a m {b} free at = elim (Bool-cases (bytes_eq id j)) [
  | inl e ↦
      let same : id ≡ j = (bytes_eq_iff id j).0 e in
      let none_at : lookup j m ≡ none = rw (← same) free in
      let no : ◌≡◌ {A = Option A} none (some b) = sym none_at ∙ at in cc
  | inr e ↦ unfold lookup in rw e at
]

runs_stopped :
    (id j : Bytes) (labs : Map Bytes Lab)
    → runs (lookup j (set_status id stopped labs))
      ≡ (if bytes_eq id j then false else runs (lookup j labs))
runs_stopped id j labs = elim (Bool-cases (bytes_eq id j)) [
  | inl e ↦ elim (Option-cases (lookup id labs)) [
    | inl f ↦ rw (lookup-set_status, e, f) refl
    | inr (lab, f) ↦ rw (lookup-set_status, e, f) refl
  ]
  | inr e ↦ rw (lookup-set_status, e) refl
]

module _ {S W : Type 0} (host : Host S W) where
  stop_all-runs :
      (cancels sims : Map Bytes S) (labs : Map Bytes Lab) (w : W) (j : Bytes)
      → runs (lookup j (stop_all host cancels sims (labs, w)).0)
        ≡ (if is_there (lookup j sims) then false else runs (lookup j labs))
  unfolding stop_all lookup
  stop_all-runs cancels [] labs w j = refl
  stop_all-runs cancels ((id, sim) ∷ sims) labs w j =
      let v = host.stop sim (cancelled host (lookup id cancels) w) in
      let below = stop_all-runs cancels sims (set_status id stopped labs) v j in
      below ∙ elim (Bool-cases (bytes_eq id j)) [
        | inl e ↦ elim (Bool-cases (is_there (lookup j sims))) [
          | inl f ↦ rw (e, f) refl
          | inr f ↦ rw (runs_stopped, e, f) refl
        ]
        | inr e ↦ rw (runs_stopped, e) refl
      ]

  -- Each simulator is cancelled, then stopped.
  abbrev pub ended : W → Bytes × S → W
  ended w (id, sim) = host.stop sim (host.cancel sim w)

  stop_all-ended :
      (cancels sims : Map Bytes S) (labs : Map Bytes Lab) (w : W)
      → IsMap sims
      → ((id : Bytes) (sim : S) → lookup id sims ≡ some sim → lookup id cancels ≡ some sim)
      → (stop_all host cancels sims (labs, w)).1 ≡ foldl ended w sims
  unfolding stop_all
  stop_all-ended cancels [] labs w unique own = refl
  stop_all-ended cancels ((id, sim) ∷ sims) labs w unique own =
      let mine : lookup id cancels ≡ some sim = own id sim (lookup-first id sim sims) in
      rw (stop_all, mine)
        (stop_all-ended cancels sims (set_status id stopped labs) (ended w (id, sim)) unique.1
          (λ j other at. own j other (lookup-rest id j sim sims unique.0 at)))

  -- A shutdown of a sound manager cancels each simulator and then stops it, one after the other, and
  -- nothing else. After it no lab is running, and the manager knows no simulators.
  pub shutdown-stops :
      (n : ℕ) (rm : ResourceManager S) (w : W)
      → IsSound n rm
      → let (left, v) = shutdown host rm w in
        (v ≡ foldl ended w rm.lab_simulators)
        × ((id : Bytes) → runs (lookup id left.labs) ≡ false)
        × (left.lab_simulators ≡ [])
        × (left.lab_cancels ≡ [])
  unfolding shutdown
  shutdown-stops n rm w h = (
    stop_all-ended rm.lab_cancels rm.lab_simulators rm.labs w h.distinct
        (λ id sim at. sym (h.cancellable id) ∙ at),
    λ id.
        stop_all-runs rm.lab_cancels rm.lab_simulators rm.labs w id
        ∙ elim (Bool-cases (is_there (lookup id rm.lab_simulators))) [
          | inl e ↦ rw e refl
          | inr e ↦ rw e (h.simulated id ∙ e)
        ],
    refl,
    refl,
  )
