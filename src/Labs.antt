-- ===== src/Labs.antt =====
-- cmd/snmpsim-api/main.go: ResourceManager, its labs and engines. The body of a request is given
-- decoded, `none` where it is no JSON. Simulators are a parameter. The lock, the metrics, the log and the
-- text of an error are left out.
pub mod Lifecycle
pub mod Resources
pub mod Routes
pub mod Perform
pub mod Keys
pub mod Sound
pub mod Engines
pub mod Starts
pub mod Keeps
pub mod Ended
pub mod Paths
pub mod Races
pub mod Tests
use go_snmpsim.Prelude.{
  ℕ, suc, ◌+◌, ◌%◌, ◌^◌, Bool, true, false, ◌&&◌, ◌||◌, Option, none, some, List, [], ◌∷◌, ◌++◌,
  map, Bytes, codes, bytes_eq, text_eq, Map, lookup, put, erase, if◌then◌else◌,
}
use go_snmpsim.Strconv.{print_int}

pub data Status : Type 0 where
  stopped running : Status

pub record Lab : Type 0 where
  pub id : Bytes
  pub name : Bytes
  pub engine_id : Bytes
  pub status : Status
  pub created_at : ℕ

pub record LabEngine : Type 0 where
  pub id : Bytes
  pub name : Bytes
  pub engine_id : Bytes
  pub listen_addr : Bytes
  pub listen_addr6 : Bytes
  pub port_start : ℕ
  pub port_end : ℕ
  pub num_devices : ℕ
  pub created_at : ℕ

pub record Endpoint : Type 0 where
  pub id : Bytes
  pub name : Bytes
  pub address : Bytes
  pub port : ℕ
  pub created_at : ℕ

pub record User : Type 0 where
  pub id : Bytes
  pub name : Bytes
  pub email : Bytes
  pub created_at : ℕ

pub record Dataset : Type 0 where
  pub id : Bytes
  pub name : Bytes
  pub engine_id : Bytes
  pub file_path : Bytes
  pub created_at : ℕ

-- The cancel function of a lab is the simulator that it cancels.
pub record ResourceManager (S : Type 0) : Type 0 where
  pub labs : Map Bytes Lab
  pub engines : Map Bytes LabEngine
  pub endpoints : Map Bytes Endpoint
  pub users : Map Bytes User
  pub datasets : Map Bytes Dataset
  pub lab_simulators : Map Bytes S
  pub lab_cancels : Map Bytes S
  pub next_id : ℕ

unfoldable pub new_resource_manager : {S : Type 0} → ResourceManager S
new_resource_manager = record {
  labs = [];
  engines = [];
  endpoints = [];
  users = [];
  datasets = [];
  lab_simulators = [];
  lab_cancels = [];
  next_id = 0;
}

-- The status code of a response, and its body where it has one.
pub record Reply (A : Type 0) : Type 0 where
  pub code : ℕ
  pub body : Option A

abbrev pub refused : {A : Type 0} → ℕ → Reply A
refused code = record { code = code; body = none }

abbrev pub answered : {A : Type 0} → ℕ → A → Reply A
answered code body = record { code = code; body = some body }

-- `fmt.Sprintf("%s-%d", kind, rm.nextID)`, and `rm.nextID++`.
unfoldable pub numbered : Bytes → ℕ → Bytes
unfolding print_int
numbered kind n = kind ++ b'-' ∷ print_int n

abbrev pub next_of : ℕ → ℕ
next_of n = (n + 1) % 2 ^ 64

abbrev pub is_running : Status → Bool
is_running stopped = false
is_running running = true

-- `lab.Status = status`, for a lab that is in the map.
unfoldable pub set_status : Bytes → Status → Map Bytes Lab → Map Bytes Lab
set_status id status labs = elim (lookup id labs) [
  | none ↦ labs
  | some lab ↦ put id (record lab { status = status }) labs
]

-- What the source takes of engine.Simulator, over a state `W` of the machine. Creating and starting may
-- fail; starting says whether it succeeded.
pub record Host (S W : Type 0) : Type 0 where
  pub create : LabEngine → W → Option S × W
  pub start : S → W → Bool × W
  pub cancel : S → W → W
  pub stop : S → W → W

-- A running lab has the engine.
unfoldable pub in_use : Bytes → Map Bytes Lab → Bool
in_use id [] = false
in_use id ((key, lab) ∷ labs) =
    let rest = in_use id labs in bytes_eq lab.engine_id id && is_running lab.status || rest

module _ {S : Type 0} where
  unfoldable pub create_lab :
      ℕ → Option (Bytes × Bytes) → ResourceManager S → Reply Lab × ResourceManager S
  unfolding numbered
  create_lab now none rm = (refused 400, rm)
  create_lab now (some (name, engine_id)) rm =
      let id = numbered (codes "lab") rm.next_id in
      let lab : Lab = record {
        id = id;
        name = name;
        engine_id = engine_id;
        status = stopped;
        created_at = now;
      } in
      (answered 201 lab, record rm { labs = put id lab rm.labs; next_id = next_of rm.next_id })

  unfoldable pub list_labs : ResourceManager S → Reply (List Lab)
  list_labs rm = answered 200 (map (λ entry. entry.1) rm.labs)

  unfoldable pub get_lab : Bytes → ResourceManager S → Reply Lab
  get_lab id rm = elim (lookup id rm.labs) [ none ↦ refused 404 | some lab ↦ answered 200 lab ]

  unfoldable pub delete_lab : Bytes → ResourceManager S → ℕ × ResourceManager S
  delete_lab id rm = elim (lookup id rm.labs) [
    | none ↦ (404, rm)
    | some lab ↦
        if is_running lab.status then (409, rm) else (204, record rm { labs = erase id rm.labs })
  ]

  -- The checks of `StartLab` under its first lock: the lab and its engine, or the code of a refusal.
  unfoldable pub start_begin : Bytes → ResourceManager S → ℕ × Option (Lab × LabEngine)
  start_begin id rm = elim (lookup id rm.labs) [
    | none ↦ (404, none)
    | some lab ↦
        if is_running lab.status then (409, none) else elim (lookup lab.engine_id rm.engines) [
          | none ↦ (400, none)
          | some eng ↦ (200, some (lab, eng))
        ]
  ]

  -- The part of `StartLab` under its second lock. The lab is changed through its pointer, also if the
  -- map has lost it.
  unfoldable pub start_finish : Bytes → S → ResourceManager S → ResourceManager S
  unfolding set_status
  start_finish id sim rm = record rm {
    labs = set_status id running rm.labs;
    lab_simulators = put id sim rm.lab_simulators;
    lab_cancels = put id sim rm.lab_cancels;
  }

  unfoldable pub create_engine :
      ℕ → Option LabEngine → ResourceManager S → Reply LabEngine × ResourceManager S
  unfolding numbered
  create_engine now none rm = (refused 400, rm)
  create_engine now (some req) rm =
      let id = numbered (codes "engine") rm.next_id in
      let eng = record req { id = id; created_at = now } in
      (
        answered 201 eng,
        record rm { engines = put id eng rm.engines; next_id = next_of rm.next_id },
      )

  unfoldable pub list_engines : ResourceManager S → Reply (List LabEngine)
  list_engines rm = answered 200 (map (λ entry. entry.1) rm.engines)

  unfoldable pub get_engine : Bytes → ResourceManager S → Reply LabEngine
  get_engine id rm = elim (lookup id rm.engines) [ none ↦ refused 404 | some e ↦ answered 200 e ]

  unfoldable pub delete_engine : Bytes → ResourceManager S → ℕ × ResourceManager S
  unfolding in_use
  delete_engine id rm = elim (lookup id rm.engines) [
    | none ↦ (404, rm)
    | some eng ↦
        if in_use id rm.labs then (409, rm) else (204, record rm { engines = erase id rm.engines })
  ]
