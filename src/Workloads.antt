-- ===== src/Workloads.antt =====
-- internal/webui/workload_manager.go: WorkloadManager. The directory of the workloads is a parameter,
-- as is encoding/json. A file is named by its base name; an error is `false` or `none`. The lock and the
-- log are left out.
pub mod Files
pub mod Restart
pub mod Tests
use Prim.Native.String.{String}
use go_snmpsim.Prelude.{
  ℕ, ◌≡◌, ◌≢◌, Bool, true, false, ◌&&◌, ◌||◌, not, Option, none, some, List, [], ◌∷◌, ◌++◌, Mem,
  map, Bytes, codes, is_empty, bytes_eq, text_eq, has_prefix, Map, lookup, put, erase, leb, ◌==◌,
  if◌then◌else◌,
}

-- A time is `none` where it is zero.
pub record Workload : Type 0 where
  pub name : Bytes
  pub description : Bytes
  pub test_type : Bytes
  pub oids : List Bytes
  pub port_start : ℕ
  pub port_end : ℕ
  pub device_count : ℕ
  pub community : Bytes
  pub timeout : ℕ
  pub max_repeaters : ℕ
  pub concurrency : ℕ
  pub interval_sec : ℕ
  pub duration_sec : ℕ
  pub snmprec_file : Bytes
  pub simulator_path : ℕ
  pub created_at : Option ℕ
  pub updated_at : Option ℕ

-- The bytes of the class `[a-zA-Z0-9._-]`.
is_name_byte : ℕ → Bool
is_name_byte c =
    (leb b'a' c && leb c b'z')
    || (leb b'A' c && leb c b'Z')
    || (leb b'0' c && leb c b'9')
    || c == b'.'
    || c == b'_'
    || c == b'-'

all_name_bytes : Bytes → Bool
unfolding is_name_byte
all_name_bytes [] = true
all_name_bytes (c ∷ s) = is_name_byte c && all_name_bytes s

-- `validateWorkloadName`: there is no error.
unfoldable pub validate_workload_name : Bytes → Bool
unfolding all_name_bytes
validate_workload_name name = not (is_empty name) && all_name_bytes name

abbrev pub json_suffix : Bytes
json_suffix = codes ".json"

abbrev pub file_name : Bytes → Bytes
file_name name = name ++ json_suffix

-- `workloadPath` for a name without a slash, relative to the directory.
workload_path : Bytes → Option Bytes
workload_path name =
    let rel = file_name name in
    if bytes_eq rel (codes "..") || has_prefix rel (codes "../") then none else some rel

abbrev cons_byte : ℕ → Option Bytes → Option Bytes
cons_byte c none = none
cons_byte c (some s) = some (c ∷ s)

-- `file.Name()[:len(file.Name())-5]`, where the extension of the name is `.json`.
unfoldable pub name_of_file : Bytes → Option Bytes
name_of_file [] = none
name_of_file (c ∷ s) =
    let rest = name_of_file s in if bytes_eq (c ∷ s) json_suffix then some [] else cons_byte c rest

-- What the source takes of the operating system, for the files in the directory that are no
-- directories, and of encoding/json. The texts that the files hold are a type `T`, since only
-- encoding/json reads them. Removing a file that does not exist succeeds.
pub record Disk (W T : Type 0) : Type 0 where
  pub read_dir : W → Option (List Bytes)
  pub read_file : Bytes → W → Option T
  pub write_file : Bytes → T → W → Bool × W
  pub remove : Bytes → W → Bool × W

pub record Json (T : Type 0) : Type 0 where
  pub marshal : Workload → Option T
  pub unmarshal : T → Option Workload

pub record WorkloadManager (W : Type 0) : Type 0 where
  pub workloads : Map Bytes Workload
  pub files : W

-- The time of an update is new, that of the creation only if there is none.
stamp : ℕ → Workload → Workload
stamp now workload = record workload {
  created_at = (elim workload.created_at [ none ↦ some now | some t ↦ some t ]);
  updated_at = some now;
}

abbrev no_oids : List Bytes → Bool
no_oids [] = true
no_oids (oid ∷ oids) = false

module _ {W T : Type 0} (disk : Disk W T) (json : Json T) where
  abbrev pub decoded : Option T → Option Workload
  decoded none = none
  decoded (some text) = json.unmarshal text

  abbrev keep : Bytes → Option Workload → Map Bytes Workload → Map Bytes Workload
  keep name none m = m
  keep name (some workload) m = put name workload m

  -- One round of the loop over the directory.
  load_file : W → Bytes → Map Bytes Workload → Map Bytes Workload
  unfolding name_of_file
  load_file w file m = elim (name_of_file file) [
    | none ↦ m
    | some name ↦ keep name (decoded (disk.read_file file w)) m
  ]

  pub load_loop : W → List Bytes → Map Bytes Workload → Map Bytes Workload
  unfolding load_file
  load_loop w [] m = m
  load_loop w (file ∷ files) m = load_loop w files (load_file w file m)

  -- `loadFromDisk`, into a map without workloads.
  unfoldable pub load_from_disk : W → Map Bytes Workload
  unfolding load_loop
  load_from_disk w = elim (disk.read_dir w) [ none ↦ [] | some files ↦ load_loop w files [] ]

  -- `NewWorkloadManager`, for a directory that is there.
  unfoldable pub new_workload_manager : W → WorkloadManager W
  unfolding load_from_disk
  new_workload_manager w = record { workloads = load_from_disk w; files = w }

  -- The part of `SaveWorkload` that writes.
  write_workload : Workload → WorkloadManager W → Bool × WorkloadManager W
  unfolding workload_path
  write_workload workload wm = elim (workload_path workload.name) [
    | none ↦ (false, wm)
    | some path ↦ elim (json.marshal workload) [
      | none ↦ (false, wm)
      | some text ↦
          let written = disk.write_file path text wm.files in
          if written.0
          then (
            true,
            record { workloads = put workload.name workload wm.workloads; files = written.1 },
          )
          else (false, record wm { files = written.1 })
    ]
  ]

  unfoldable pub save_workload : ℕ → Workload → WorkloadManager W → Bool × WorkloadManager W
  unfolding validate_workload_name stamp write_workload
  save_workload now workload wm =
      if not (validate_workload_name workload.name) || no_oids workload.oids
      then (false, wm)
      else write_workload (stamp now workload) wm

unfoldable pub load_workload : {W : Type 0} → Bytes → WorkloadManager W → Option Workload
unfolding validate_workload_name
load_workload name wm = if validate_workload_name name then lookup name wm.workloads else none

-- The workload is dropped before its file is removed.
unfoldable pub delete_workload :
    {W T : Type 0} → Disk W T → Bytes → WorkloadManager W → Bool × WorkloadManager W
unfolding validate_workload_name workload_path
delete_workload disk name wm =
    let dropped = erase name wm.workloads in
    if validate_workload_name name
    then elim (workload_path name) [
      | none ↦ (false, record wm { workloads = dropped })
      | some path ↦
          let removed = disk.remove path wm.files in
          (removed.0, record { workloads = dropped; files = removed.1 })
    ]
    else (false, wm)

unfoldable pub list_workloads : {W : Type 0} → WorkloadManager W → List Workload
list_workloads wm = map (λ entry. entry.1) wm.workloads

abbrev template_of : String → String → String → List Bytes → Workload
template_of name description test_type oids = record {
  name = codes name;
  description = codes description;
  test_type = codes test_type;
  oids = oids;
  port_start = 20000;
  port_end = 20000;
  device_count = 1;
  community = codes "public";
  timeout = 5;
  max_repeaters = 0;
  concurrency = 0;
  interval_sec = 0;
  duration_sec = 0;
  snmprec_file = [];
  simulator_path = 0;
  created_at = none;
  updated_at = none;
}

-- `DefaultWorkloads`
abbrev pub default_workloads : List Workload
default_workloads =
    record (template_of "Basic System OIDs"
      "Basic system information (sysDescr, sysUptime, sysServices)" "get"
      (codes "1.3.6.1.2.1.1.1.0" ∷ codes "1.3.6.1.2.1.1.3.0" ∷ codes "1.3.6.1.2.1.1.7.0" ∷ [])) {
        port_end = 20009;
        device_count = 10;
        concurrency = 20;
        interval_sec = 5;
        duration_sec = 60;
      }
    ∷ record (template_of "Interface Metrics"
        "Interface statistics (ifDescr, ifInOctets, ifOutOctets)" "bulkwalk"
        (codes "1.3.6.1.2.1.2.2.1.2"
          ∷ codes "1.3.6.1.2.1.2.2.1.10"
          ∷ codes "1.3.6.1.2.1.2.2.1.16"
          ∷ [])) { max_repeaters = 10; concurrency = 5; interval_sec = 5; duration_sec = 30 }
    ∷ record (template_of "Full System Walk" "Walk entire system subtree (1.3.6.1.2.1.1)" "walk"
        (codes "1.3.6.1.2.1.1" ∷ [])) {
          timeout = 10;
          concurrency = 1;
          interval_sec = 5;
          duration_sec = 30;
        }
    ∷ record (template_of "48-Port Switch Test" "Test all 48 interface ports from single device"
        "bulkwalk" (codes "1.3.6.1.2.1.2.2.1" ∷ [])) { timeout = 15; max_repeaters = 20 }
    ∷ []
