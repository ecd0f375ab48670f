-- ===== src/Labs/Keeps.antt =====
-- cmd/snmpsim-api/main.go: a resource manager behind requests that come one after the other.
use go_snmpsim.Prelude.{
  ℕ, suc, ◌+◌, ◌^◌, ◌<◌, ◌≡◌, refl, sym, ◌∙◌, true, false, some, List, [], ◌∷◌, Bytes, codes,
  text_eq, lookup, put, lookup-nil, arith, Option-cases, inl, inr, length,
}
use go_snmpsim.Labs
use go_snmpsim.Labs.Lifecycle
use go_snmpsim.Labs.{
  Lab, LabEngine, Endpoint, User, Dataset, Status, stopped, running, is_running, ResourceManager,
  new_resource_manager, Host, numbered, next_of, set_status, start_begin, start_finish, in_use,
  answered,
}
use go_snmpsim.Labs.Lifecycle.{stop_running}
use go_snmpsim.Labs.Resources
use go_snmpsim.Labs.Resources.{deleted}
use go_snmpsim.Labs.Routes.{
  Call, create_lab, list_labs, get_lab, delete_lab, start_lab, stop_lab, create_engine,
  list_engines, get_engine, delete_engine, create_endpoint, list_endpoints, get_endpoint,
  delete_endpoint, create_user, list_users, get_user, delete_user, create_dataset, list_datasets,
  get_dataset, delete_dataset, refuse, route,
}
use go_snmpsim.Labs.Perform.{Body, Request, perform, serve}
use go_snmpsim.Labs.Keys.{is_there, runs}
use go_snmpsim.Labs.Sound.{
  IsSound, spent_with-IsSound, later_with-IsSound, later-IsSound, put_lab-IsSound,
  delete_lab-IsSound,
}
use go_snmpsim.Labs.Engines.{put_engine-IsSound, delete_engine-IsSound}
use go_snmpsim.Labs.Starts.{start_lab-IsSound, stop_lab-IsSound}

module _ {S : Type 0} (n : ℕ) (small : n < 2 ^ 63) (rm : ResourceManager S) (h : IsSound n rm) where
  -- A handler keeps the manager sound.
  pub perform-IsSound :
      {W : Type 0} (host : Host S W) (now : ℕ) (body : Body) (w : W) (call : Call)
      → IsSound (suc n) (perform host now body rm w call).1
  unfolding perform Labs.create_lab Labs.create_engine Resources.create_endpoint
      Resources.create_user Resources.create_dataset Resources.delete_endpoint Resources.delete_user
      Resources.delete_dataset
  perform-IsSound host now body w create_lab = elim (Option-cases body.as_lab) [
    | inl e ↦ rw (perform, Labs.create_lab, e) (later-IsSound n small rm h)
    | inr ((name, engine_id), e) ↦
        rw (perform, Labs.create_lab, e)
          (put_lab-IsSound n small rm h
            (record {
              id = numbered (codes "lab") rm.next_id;
              name = name;
              engine_id = engine_id;
              status = stopped;
              created_at = now;
            })
            refl)
  ]
  perform-IsSound host now body w create_engine = elim (Option-cases body.as_engine) [
    | inl e ↦ rw (perform, Labs.create_engine, e) (later-IsSound n small rm h)
    | inr (req, e) ↦
        rw (perform, Labs.create_engine, e)
          (put_engine-IsSound n small rm h (numbered (codes "engine") rm.next_id)
            (record req { id = numbered (codes "engine") rm.next_id; created_at = now }))
  ]
  perform-IsSound host now body w create_endpoint = elim (Option-cases body.as_endpoint) [
    | inl e ↦ rw (perform, Resources.create_endpoint, e) (later-IsSound n small rm h)
    | inr ((name, address, port), e) ↦
        rw (perform, Resources.create_endpoint, e)
          (let made : Endpoint = record {
            id = numbered (codes "endpoint") rm.next_id;
            name = name;
            address = address;
            port = port;
            created_at = now;
          } in
            spent_with-IsSound n small rm h
              (put (numbered (codes "endpoint") rm.next_id) made rm.endpoints) rm.users rm.datasets)
  ]
  perform-IsSound host now body w create_user = elim (Option-cases body.as_user) [
    | inl e ↦ rw (perform, Resources.create_user, e) (later-IsSound n small rm h)
    | inr ((name, email), e) ↦
        rw (perform, Resources.create_user, e)
          (let made : User = record {
            id = numbered (codes "user") rm.next_id;
            name = name;
            email = email;
            created_at = now;
          } in
            spent_with-IsSound n small rm h rm.endpoints
              (put (numbered (codes "user") rm.next_id) made rm.users) rm.datasets)
  ]
  perform-IsSound host now body w create_dataset = elim (Option-cases body.as_dataset) [
    | inl e ↦ rw (perform, Resources.create_dataset, e) (later-IsSound n small rm h)
    | inr ((name, engine_id, file_path), e) ↦
        rw (perform, Resources.create_dataset, e)
          (let made : Dataset = record {
            id = numbered (codes "dataset") rm.next_id;
            name = name;
            engine_id = engine_id;
            file_path = file_path;
            created_at = now;
          } in
            spent_with-IsSound n small rm h rm.endpoints rm.users
              (put (numbered (codes "dataset") rm.next_id) made rm.datasets))
  ]
  perform-IsSound host now body w list_labs = later-IsSound n small rm h
  perform-IsSound host now body w list_engines = later-IsSound n small rm h
  perform-IsSound host now body w list_endpoints = later-IsSound n small rm h
  perform-IsSound host now body w list_users = later-IsSound n small rm h
  perform-IsSound host now body w list_datasets = later-IsSound n small rm h
  perform-IsSound host now body w (get_lab id) = later-IsSound n small rm h
  perform-IsSound host now body w (get_engine id) = later-IsSound n small rm h
  perform-IsSound host now body w (get_endpoint id) = later-IsSound n small rm h
  perform-IsSound host now body w (get_user id) = later-IsSound n small rm h
  perform-IsSound host now body w (get_dataset id) = later-IsSound n small rm h
  perform-IsSound host now body w (delete_lab id) = delete_lab-IsSound n small rm h id
  perform-IsSound host now body w (delete_engine id) = delete_engine-IsSound n small rm h id
  perform-IsSound host now body w (delete_endpoint id) =
      later_with-IsSound n small rm h (deleted id rm.endpoints).1 rm.users rm.datasets
  perform-IsSound host now body w (delete_user id) =
      later_with-IsSound n small rm h rm.endpoints (deleted id rm.users).1 rm.datasets
  perform-IsSound host now body w (delete_dataset id) =
      later_with-IsSound n small rm h rm.endpoints rm.users (deleted id rm.datasets).1
  perform-IsSound host now body w (start_lab id) = start_lab-IsSound n small rm h host w id
  perform-IsSound host now body w (stop_lab id) = stop_lab-IsSound n small rm h host w id
  perform-IsSound host now body w (refuse code) = later-IsSound n small rm h

module _ {S W : Type 0} (host : Host S W) where
  serve-IsSound :
      (requests : List Request) (n : ℕ)
      → n + length requests < 2 ^ 63
      → (rm : ResourceManager S) (w : W) → IsSound n rm
      → IsSound (n + length requests) (serve host requests rm w).1
  unfolding serve
  serve-IsSound [] n small rm w h = let same : n + 0 ≡ n = omega arith in rw same h
  serve-IsSound (r ∷ requests) n small rm w h =
      let after = perform host r.now r.body rm w (route r.method r.path) in
      let kept = perform-IsSound n (omega arith) rm h host r.now r.body w (route r.method r.path) in
      let total : n + suc (length requests) ≡ suc n + length requests = omega arith in
      rw total (serve-IsSound requests (suc n) (omega arith) after.1 after.2 kept)

  -- After requests that came one after the other, fewer than 2^63, the labs that run are those with a
  -- simulator and those with a cancel function, no lab has two simulators, the engine of a running lab is there, and the ids of
  -- the next labs are free; whatever creating and starting a simulator answered.
  pub serve_all-IsSound :
      (requests : List Request) (w : W)
      → length requests < 2 ^ 63
      → IsSound (length requests) (serve host requests new_resource_manager w).1
  unfolding new_resource_manager
  serve_all-IsSound requests w small =
      let start : IsSound 0 (new_resource_manager {S = S}) = record {
        counted = omega arith;
        simulated = λ id. rw (lookup-nil, lookup-nil) refl;
        cancellable = λ id. refl;
        distinct = tt;
        engined = λ id. rw lookup-nil refl;
        fresh = λ k after fits. lookup-nil (numbered (codes "lab") k);
      } in
      let total : 0 + length requests ≡ length requests = omega arith in
      let kept = serve-IsSound requests 0 (omega arith) new_resource_manager w start in
      rw total at kept

  -- Stopping a running lab of a sound manager succeeds: the lab's simulator is cancelled, then stopped.
  -- The answer that says that a running lab has no simulator is never given.
  pub stop_lab-running :
      (n : ℕ) (rm : ResourceManager S) (w : W) (id : Bytes) (lab : Lab)
      → IsSound n rm
      → lookup id rm.labs ≡ some lab
      → is_running lab.status ≡ true
      → (sim : S) × (lookup id rm.lab_simulators ≡ some sim)
        × ((Lifecycle.stop_lab host id rm w).0 ≡ answered 200 (record lab { status = stopped }))
        × ((Lifecycle.stop_lab host id rm w).2 ≡ host.stop sim (host.cancel sim w))
  unfolding Lifecycle.stop_lab stop_running
  stop_lab-running n rm w id lab h at on = elim (Option-cases (lookup id rm.lab_simulators)) [
    | inl e ↦
        let runs_at : runs (lookup id rm.labs) ≡ true = rw at on in
        let none_at : is_there (lookup id rm.lab_simulators) ≡ false = rw e refl in
        let same = h.simulated id in let no : true ≡ false = sym runs_at ∙ (same ∙ none_at) in cc
    | inr (sim, e) ↦
        let cancel_at : lookup id rm.lab_cancels ≡ some sim = sym (h.cancellable id) ∙ e in
        (
          sim,
          e,
          rw (Lifecycle.stop_lab, at, on, stop_running, e) refl,
          rw (Lifecycle.stop_lab, at, on, stop_running, e, cancel_at) refl,
        )
  ]
