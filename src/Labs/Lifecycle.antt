-- ===== src/Labs/Lifecycle.antt =====
-- cmd/snmpsim-api/main.go: starting and stopping the simulators of labs. Simulators are a parameter.
use go_snmpsim.Prelude.{
  Option, none, some, [], ◌∷◌, Bytes, text_eq, Map, lookup, erase, if◌then◌else◌,
}
use go_snmpsim.Labs.{
  Lab, stopped, running, is_running, ResourceManager, Reply, refused, answered, Host, set_status,
  start_begin, start_finish,
}

module _ {S W : Type 0} (host : Host S W) where
  -- `StartLab`, where nothing else runs between its two locks.
  unfoldable pub start_lab : Bytes → ResourceManager S → W → Reply Lab × ResourceManager S × W
  unfolding start_begin start_finish
  start_lab id rm w = elim (start_begin id rm).1 [
    | none ↦ (refused (start_begin id rm).0, rm, w)
    | some (lab, eng) ↦
        let created = host.create eng w in
        elim created.0 [
          | none ↦ (refused 500, rm, created.1)
          | some sim ↦
              let started = host.start sim created.1 in
              if started.0
              then (
                answered 200 (record lab { status = running }),
                start_finish id sim rm,
                started.1,
              )
              else (refused 500, rm, host.cancel sim started.1)
        ]
  ]

  abbrev pub cancelled : Option S → W → W
  cancelled none w = w
  cancelled (some sim) w = host.cancel sim w

  -- The part of `StopLab` for a running lab.
  unfoldable pub stop_running :
      Bytes → Lab → ResourceManager S → W → Reply Lab × ResourceManager S × W
  unfolding set_status
  stop_running id lab rm w = elim (lookup id rm.lab_simulators) [
    | none ↦ (refused 500, rm, w)
    | some sim ↦ (
      answered 200 (record lab { status = stopped }),
      (record rm {
        labs = set_status id stopped rm.labs;
        lab_simulators = erase id rm.lab_simulators;
        lab_cancels = erase id rm.lab_cancels;
      }),
      host.stop sim (cancelled (lookup id rm.lab_cancels) w),
    )
  ]

  unfoldable pub stop_lab : Bytes → ResourceManager S → W → Reply Lab × ResourceManager S × W
  unfolding stop_running
  stop_lab id rm w = elim (lookup id rm.labs) [
    | none ↦ (refused 404, rm, w)
    | some lab ↦ if is_running lab.status then stop_running id lab rm w else (refused 409, rm, w)
  ]

  -- The loop of `Shutdown`.
  unfoldable pub stop_all : Map Bytes S → Map Bytes S → Map Bytes Lab × W → Map Bytes Lab × W
  unfolding set_status
  stop_all cancels [] (labs, w) = (labs, w)
  stop_all cancels ((id, sim) ∷ sims) (labs, w) =
      stop_all cancels sims
        (set_status id stopped labs, host.stop sim (cancelled (lookup id cancels) w))

  unfoldable pub shutdown : ResourceManager S → W → ResourceManager S × W
  unfolding stop_all
  shutdown rm w =
      let ended = stop_all rm.lab_cancels rm.lab_simulators (rm.labs, w) in
      (record rm { labs = ended.0; lab_simulators = []; lab_cancels = [] }, ended.1)
