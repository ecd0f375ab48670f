-- ===== src/Labs/Starts.antt =====
-- cmd/snmpsim-api/main.go: a resource manager when a lab is started or stopped.
use go_snmpsim.Prelude.{
  ℕ, suc, ◌^◌, ◌<◌, ◌≡◌, refl, some, Bytes, bytes_eq, text_eq, lookup, put, erase, lookup-put,
  lookup-erase, Bool-cases, Option-cases, inl, inr,
}
use go_snmpsim.Labs.Lifecycle
use go_snmpsim.Labs.{
  Lab, LabEngine, stopped, running, is_running, ResourceManager, Host, start_begin, start_finish,
}
use go_snmpsim.Labs.Lifecycle.{stop_running}
use go_snmpsim.Labs.Keys.{put-IsMap, erase-IsMap}
use go_snmpsim.Labs.Sound.{IsSound, later-IsSound, set_status-IsSound}
use go_snmpsim.Labs.Engines.{there}

module _ {S : Type 0} (n : ℕ) (small : n < 2 ^ 63) (rm : ResourceManager S) (h : IsSound n rm) where
  start_finish-IsSound :
      (id : Bytes) (sim : S) (lab : Lab) (eng : LabEngine)
      → lookup id rm.labs ≡ some lab
      → lookup lab.engine_id rm.engines ≡ some eng
      → IsSound (suc n) (start_finish id sim rm)
  unfolding start_finish
  start_finish-IsSound id sim lab eng at has =
      set_status-IsSound n small rm h id running (put id sim rm.lab_simulators)
        (there (lookup id rm.labs) at) (rw (at, has) refl)
        (λ j. elim (Bool-cases (bytes_eq id j)) [
          | inl e ↦ rw (lookup-put, e) refl
          | inr e ↦ rw (lookup-put, e) refl
        ])
        (put id sim rm.lab_cancels)
        (λ j. elim (Bool-cases (bytes_eq id j)) [
          | inl e ↦ rw (lookup-put, lookup-put, e) refl
          | inr e ↦ rw (lookup-put, lookup-put, e) (h.cancellable j)
        ])
        (put-IsMap id sim rm.lab_simulators h.distinct)

  module _ {W : Type 0} (host : Host S W) (w : W) (id : Bytes) where
    pub start_lab-IsSound : IsSound (suc n) (Lifecycle.start_lab host id rm w).1
    unfolding Lifecycle.start_lab start_begin
    start_lab-IsSound =
        let later = later-IsSound n small rm h in
        elim (Option-cases (lookup id rm.labs)) [
          | inl e ↦ rw (Lifecycle.start_lab, e) later
          | inr (lab, e) ↦ elim (Bool-cases (is_running lab.status)) [
            | inl on ↦ rw (Lifecycle.start_lab, e, on) later
            | inr off ↦ elim (Option-cases (lookup lab.engine_id rm.engines)) [
              | inl f ↦ rw (Lifecycle.start_lab, e, off, f) later
              | inr (eng, f) ↦ elim (Option-cases (host.create eng w).0) [
                | inl g ↦ rw (Lifecycle.start_lab, e, off, f, g) later
                | inr (sim, g) ↦ elim (Bool-cases (host.start sim (host.create eng w).1).0) [
                  | inl k ↦
                      rw (Lifecycle.start_lab, e, off, f, g, k)
                        (start_finish-IsSound id sim lab eng e f)
                  | inr k ↦ rw (Lifecycle.start_lab, e, off, f, g, k) later
                ]
              ]
            ]
          ]
        ]

    stop_running-IsSound :
        (lab : Lab)
        → lookup id rm.labs ≡ some lab
        → IsSound (suc n) (stop_running host id lab rm w).1
    unfolding stop_running
    stop_running-IsSound lab at = elim (Option-cases (lookup id rm.lab_simulators)) [
      | inl e ↦ rw (stop_running, e) (later-IsSound n small rm h)
      | inr (sim, e) ↦
          rw (stop_running, e)
            (set_status-IsSound n small rm h id stopped (erase id rm.lab_simulators)
              (there (lookup id rm.labs) at) (rw at refl)
              (λ j. elim (Bool-cases (bytes_eq id j)) [
                | inl e ↦ rw (lookup-erase, e) refl
                | inr e ↦ rw (lookup-erase, e) refl
              ])
              (erase id rm.lab_cancels)
              (λ j. elim (Bool-cases (bytes_eq id j)) [
                | inl e ↦ rw (lookup-erase, lookup-erase, e) refl
                | inr e ↦ rw (lookup-erase, lookup-erase, e) (h.cancellable j)
              ])
              (erase-IsMap id rm.lab_simulators h.distinct))
    ]

    pub stop_lab-IsSound : IsSound (suc n) (Lifecycle.stop_lab host id rm w).1
    unfolding Lifecycle.stop_lab
    stop_lab-IsSound = elim (Option-cases (lookup id rm.labs)) [
      | inl e ↦ rw (Lifecycle.stop_lab, e) (later-IsSound n small rm h)
      | inr (lab, e) ↦ elim (Bool-cases (is_running lab.status)) [
        | inl on ↦ rw (Lifecycle.stop_lab, e, on) (stop_running-IsSound lab e)
        | inr off ↦ rw (Lifecycle.stop_lab, e, off) (later-IsSound n small rm h)
      ]
    ]
