-- ===== src/Labs/Tests.antt =====
-- Runs of the labs of cmd/snmpsim-api/main.go.
use mathlib.Core.List.{foldl}
use go_snmpsim.Prelude.{
  ℕ, ◌+◌, ◌≡◌, refl, true, false, none, some, List, [], ◌∷◌, ◌++◌, Bytes, codes, lookup, put,
  text_eq, arith,
}
use go_snmpsim.Oid.Render.{decimal}
use go_snmpsim.Labs.Routes
use go_snmpsim.Labs.{
  Lab, LabEngine, stopped, running, ResourceManager, new_resource_manager, Host, answered, refused,
  start_begin, start_finish, get_lab, delete_lab, create_lab,
}
use go_snmpsim.Labs.Lifecycle.{stop_lab, shutdown}
use go_snmpsim.Labs.Routes.{get, post, delete, split_path, route}
use go_snmpsim.Labs.Perform.{Body, Request, serve}
use go_snmpsim.Labs.Sound.{IsSound}
use go_snmpsim.Labs.Keys.{runs}
use go_snmpsim.Labs.Keeps.{serve_all-IsSound, stop_lab-running}
use go_snmpsim.Labs.Ended.{ended, shutdown-stops}
use go_snmpsim.Labs.Paths.{create_lab-get}
use go_snmpsim.Labs.Races.{start_lab-deleted}

-- A simulator is its number, and the machine counts them.
abbrev counting : Host ℕ ℕ
counting = record {
  create = λ eng w. (some w, w + 1);
  start = λ sim w. (true, w);
  cancel = λ sim w. w + 10;
  stop = λ sim w. w + 100;
}

abbrev an_engine : LabEngine
an_engine = record {
  id = [];
  name = codes "e";
  engine_id = [];
  listen_addr = codes "127.0.0.1";
  listen_addr6 = [];
  port_start = 20000;
  port_end = 20010;
  num_devices = 10;
  created_at = 0;
}

abbrev a_body : Body
a_body = record {
  as_lab = some (codes "a", codes "engine-0");
  as_engine = some an_engine;
  as_endpoint = none;
  as_user = none;
  as_dataset = none;
}

abbrev posted : Bytes → Request
posted path = record { now = 7; body = a_body; method = post; path = path }

abbrev starting : List Request
starting =
    posted (codes "/engines")
    ∷ posted (codes "/labs")
    ∷ posted (codes "/labs/lab-1/start")
    ∷ record { now = 8; body = a_body; method = delete; path = codes "/engines/engine-0" }
    ∷ []

abbrev started : List ℕ × ResourceManager ℕ × ℕ
started = serve counting starting new_resource_manager 0

serve_example : started.0 ≡ 201 ∷ 201 ∷ 200 ∷ 409 ∷ []
unfolding serve new_resource_manager lookup put decimal
serve_example = refl

abbrev a_lab : Lab
a_lab = record {
  id = codes "lab-1";
  name = codes "a";
  engine_id = codes "engine-0";
  status = running;
  created_at = 7;
}

abbrev still_lab : Lab
still_lab = record a_lab { status = stopped }

abbrev before : List ℕ × ResourceManager ℕ × ℕ
before =
    serve counting (posted (codes "/engines") ∷ posted (codes "/labs") ∷ []) new_resource_manager 0

serve_all-IsSound_example : IsSound 4 started.1
serve_all-IsSound_example = serve_all-IsSound counting starting 0 (omega arith)

stop_lab-running_example :
    (sim : ℕ) × (lookup (codes "lab-1") started.1.lab_simulators ≡ some sim)
    × ((stop_lab counting (codes "lab-1") started.1 1).0 ≡ answered 200 still_lab)
    × ((stop_lab counting (codes "lab-1") started.1 1).2 ≡ 111)
unfolding serve new_resource_manager lookup put decimal
stop_lab-running_example =
    stop_lab-running counting 4 started.1 1 (codes "lab-1") a_lab
      (serve_all-IsSound counting starting 0 (omega arith)) refl refl

shutdown-stops_example :
    let (left, v) = shutdown counting started.1 1 in
    (v ≡ foldl (ended counting) 1 started.1.lab_simulators)
    × ((id : Bytes) → runs (lookup id left.labs) ≡ false)
    × (left.lab_simulators ≡ [])
    × (left.lab_cancels ≡ [])
shutdown-stops_example =
    shutdown-stops counting 4 started.1 1 (serve_all-IsSound counting starting 0 (omega arith))

split_path_example : split_path (codes "/a//bc/") ≡ codes "a" ∷ codes "bc" ∷ []
unfolding split_path
split_path_example = refl

create_lab-get_example :
    let (reply, left) = create_lab 7 (some (codes "a", codes "engine-0")) before.1 in
    (lab : Lab) × (reply ≡ answered 201 lab)
    × (route get (codes "/labs/" ++ lab.id) ≡ Routes.get_lab lab.id)
    × (get_lab lab.id left ≡ answered 200 lab)
    × (route delete (codes "/labs/" ++ lab.id) ≡ Routes.delete_lab lab.id)
    × (route post (codes "/labs/" ++ lab.id ++ codes "/start") ≡ Routes.start_lab lab.id)
    × (route post (codes "/labs/" ++ lab.id ++ codes "/stop") ≡ Routes.stop_lab lab.id)
create_lab-get_example = create_lab-get 7 (codes "a") (codes "engine-0") before.1

start_lab-deleted_example :
    let (deleted, between) = delete_lab (codes "lab-1") before.1 in
    let left = start_finish (codes "lab-1") 5 between in
    (deleted ≡ 204)
    × (lookup (codes "lab-1") left.lab_simulators ≡ some 5)
    × (lookup (codes "lab-1") left.labs ≡ none)
    × (stop_lab counting (codes "lab-1") left 1 ≡ (refused 404, left, 1))
unfolding serve new_resource_manager lookup put decimal start_begin
start_lab-deleted_example =
    start_lab-deleted counting (codes "lab-1") before.1 1 5 {code = 200} {lab = still_lab}
      {eng = record an_engine { id = codes "engine-0"; created_at = 7 }} refl
