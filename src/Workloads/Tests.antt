-- ===== src/Workloads/Tests.antt =====
-- Workloads in a directory that is a map, whose files hold the workloads themselves.
use go_snmpsim.Prelude.{
  ◌≡◌, refl, sym, true, false, none, some, [], ◌∷◌, map, Bytes, codes, bytes_eq_iff, text_eq, Map,
  lookup, put, erase, lookup-put, lookup-put_self, lookup-erase, lookup-Mem_keys, get_or,
}
use go_snmpsim.Workloads.{
  Workload, Disk, Json, WorkloadManager, default_workloads, validate_workload_name, save_workload,
  new_workload_manager, load_workload, load_from_disk, list_workloads,
}
use go_snmpsim.Workloads.Files.{bytes_differ}
use go_snmpsim.Workloads.Restart.{IsDisk, IsJson, saved, here, next, restarted-load_workload}

abbrev folder : Disk (Map Bytes Workload) Workload
folder = record {
  read_dir = λ w. some (map (λ entry. entry.0) w);
  read_file = λ file w. lookup file w;
  write_file = λ file text w. (true, put file text w);
  remove = λ file w. (true, erase file w);
}

abbrev plain_json : Json Workload
plain_json = record { marshal = λ workload. some workload; unmarshal = λ text. some text }

folder-IsDisk : IsDisk folder
folder-IsDisk = record {
  listed = λ w names e file text h.
      let same : map (λ entry. entry.0) w ≡ names = cc in rw (← same) (lookup-Mem_keys file w h);
  written = λ file text w ok. lookup-put_self file text w;
  written_alone = λ file text other w ok apart. rw (lookup-put, bytes_differ file other apart) refl;
  removed = λ file w ok. rw (lookup-erase, (bytes_eq_iff file file).1 refl) refl;
  removed_alone = λ file other w ok apart. rw (lookup-erase, bytes_differ file other apart) refl;
}

plain_json-IsJson : IsJson plain_json
plain_json-IsJson workload text plain e = sym e

abbrev no_workload : Workload
no_workload = record {
  name = [];
  description = [];
  test_type = [];
  oids = [];
  port_start = 0;
  port_end = 0;
  device_count = 0;
  community = [];
  timeout = 0;
  max_repeaters = 0;
  concurrency = 0;
  interval_sec = 0;
  duration_sec = 0;
  snmprec_file = [];
  simulator_path = 0;
  created_at = none;
  updated_at = none;
}

abbrev lab : Workload
lab = record (get_or default_workloads 0 no_workload) { name = codes "lab" }

abbrev started : WorkloadManager (Map Bytes Workload)
started = new_workload_manager folder plain_json []

lab_is_saved : (save_workload folder plain_json 7 lab started).0 ≡ true
unfolding save_workload new_workload_manager
lab_is_saved = refl

abbrev after_save : WorkloadManager (Map Bytes Workload)
after_save = (save_workload folder plain_json 7 lab started).1

lab_is_listed :
    list_workloads after_save ≡ record lab { created_at = some 7; updated_at = some 7 } ∷ []
unfolding save_workload new_workload_manager put list_workloads load_from_disk
lab_is_listed = refl

restarted-load_workload_example :
    load_workload (codes "lab") (new_workload_manager folder plain_json after_save.files)
    ≡ load_workload (codes "lab") after_save
restarted-load_workload_example =
    restarted-load_workload folder plain_json folder-IsDisk plain_json-IsJson [] []
      (map (λ entry. entry.0) after_save.files) after_save (codes "lab") refl
      (next here (saved 7 lab refl lab_is_saved)) refl

-- The names of the default workloads hold spaces, and are refused.
default_is_refused : validate_workload_name (get_or default_workloads 0 no_workload).name ≡ false
unfolding validate_workload_name
default_is_refused = refl
