-- ===== src/Workloads/Restart.antt =====
-- internal/webui/workload_manager.go: a manager that is started in the directory of another one.
use go_snmpsim.Prelude.{
  ℕ, ◌≡◌, ◌≢◌, refl, ap, ◌∙◌, sym, Bool, true, false, ◌&&◌, ◌||◌, not, none, some, List, [], ◌∷◌,
  Mem, ltb, Bytes, codes, has_prefix, bytes_eq, bytes_eq_iff, text_eq, put, erase, lookup,
  lookup-put, lookup-put_self, lookup-erase, Option-cases, Bool-cases, inl, inr,
}
use go_snmpsim.Workloads.{
  Workload, Disk, Json, WorkloadManager, file_name, workload_path, stamp, write_workload,
  save_workload, delete_workload, load_workload, new_workload_manager, validate_workload_name,
  name_of_file, no_oids,
}
use go_snmpsim.Workloads.Files.{
  name_of_file-file_name, bytes_differ, differ_of, stored, load_from_disk-stored,
}

-- What the operating system documents of the files.
pub record IsDisk {W T : Type 0} (disk : Disk W T) : Type 0 where
  pub listed :
      (w : W) (names : List Bytes)
      → disk.read_dir w ≡ some names
      → (file : Bytes) (text : T) → disk.read_file file w ≡ some text
      → Mem file names
  pub written :
      (file : Bytes) (text : T) (w : W)
      → (disk.write_file file text w).0 ≡ true
      → disk.read_file file (disk.write_file file text w).1 ≡ some text
  pub written_alone :
      (file : Bytes) (text : T) (other : Bytes) (w : W)
      → (disk.write_file file text w).0 ≡ true
      → file ≢ other
      → disk.read_file other (disk.write_file file text w).1 ≡ disk.read_file other w
  pub removed :
      (file : Bytes) (w : W)
      → (disk.remove file w).0 ≡ true
      → disk.read_file file (disk.remove file w).1 ≡ none
  pub removed_alone :
      (file other : Bytes) (w : W)
      → (disk.remove file w).0 ≡ true
      → file ≢ other
      → disk.read_file other (disk.remove file w).1 ≡ disk.read_file other w

-- All bytes are ASCII.
abbrev is_ascii : Bytes → Bool
is_ascii [] = true
is_ascii (c ∷ s) = ltb c 128 && is_ascii s

abbrev all_ascii : List Bytes → Bool
all_ascii [] = true
all_ascii (s ∷ texts) = is_ascii s && all_ascii texts

-- All texts of a workload are ASCII.
abbrev pub is_plain : Workload → Bool
is_plain w =
    all_ascii (w.name ∷ w.description ∷ w.test_type ∷ w.community ∷ w.snmprec_file ∷ w.oids)

-- What is encoded is decoded again, if it is ASCII: encoding/json replaces what is not valid UTF-8.
abbrev pub IsJson : {T : Type 0} → Json T → Type 0
IsJson {T} json =
    (workload : Workload) (text : T)
    → is_plain workload ≡ true
    → json.marshal workload ≡ some text
    → json.unmarshal text ≡ some workload

file_name_injective : (s t : Bytes) → file_name s ≡ file_name t → s ≡ t
file_name_injective s t e =
    let left = name_of_file-file_name s in
    let right = name_of_file-file_name t in
    let same : some s ≡ some t = sym left ∙ (ap name_of_file e ∙ right) in cc

workload_path-some : (name path : Bytes) → workload_path name ≡ some path → path ≡ file_name name
unfolding workload_path
workload_path-some name path e =
    let rel = file_name name in
    elim (Bool-cases (bytes_eq rel (codes "..") || has_prefix rel (codes "../"))) [
      | inl f ↦ let no : none ≡ some path = rw f at e in cc
      | inr f ↦ let same : some rel ≡ some path = rw f at e in cc
    ]

module _ {W T : Type 0} (disk : Disk W T) (json : Json T) (d : IsDisk disk) (j : IsJson json) where
  -- The memory holds what the files do.
  Mirrors : WorkloadManager W → Type 0
  Mirrors m = (name : Bytes) → lookup name m.workloads ≡ stored disk json m.files name

  -- An operation that reports no error.
  pub data Step (m : WorkloadManager W) : WorkloadManager W → Type 0 where
    saved :
        (now : ℕ) (workload : Workload)
        → is_plain workload ≡ true
        → (save_workload disk json now workload m).0 ≡ true
        → Step m (save_workload disk json now workload m).1
    deleted :
        (name : Bytes)
        → (delete_workload disk name m).0 ≡ true
        → Step m (delete_workload disk name m).1

  pub data Reach (m : WorkloadManager W) : WorkloadManager W → Type 0 where
    here : Reach m m
    next : {n o : WorkloadManager W} → Reach m n → Step n o → Reach m o

  -- A change of one name and its file.
  changed-Mirrors :
      (m n : WorkloadManager W) (name : Bytes)
      → Mirrors m
      → lookup name n.workloads ≡ stored disk json n.files name
      → ((other : Bytes) → name ≢ other → lookup other n.workloads ≡ lookup other m.workloads)
      → ((file : Bytes)
          → file_name name ≢ file
          → disk.read_file file n.files ≡ disk.read_file file m.files)
      → Mirrors n
  unfolding Mirrors
  changed-Mirrors m n name mirrors here' memory files other =
      elim (Bool-cases (bytes_eq name other)) [
        | inl e ↦ let same = (bytes_eq_iff name other).0 e in rw (← same) here'
        | inr e ↦
            let apart : name ≢ other = differ_of name other e in
            let kept = files (file_name other) (λ f. apart (file_name_injective name other f)) in
            rw kept (memory other apart ∙ mirrors other)
      ]

  lookup-put_other :
      (name other : Bytes) (workload : Workload) (m : WorkloadManager W)
      → name ≢ other
      → lookup other (put name workload m.workloads) ≡ lookup other m.workloads
  lookup-put_other name other workload m apart = rw (lookup-put, bytes_differ name other apart) refl

  lookup-erase_other :
      (name other : Bytes) (m : WorkloadManager W)
      → name ≢ other
      → lookup other (erase name m.workloads) ≡ lookup other m.workloads
  lookup-erase_other name other m apart = rw (lookup-erase, bytes_differ name other apart) refl

  write_workload-Mirrors :
      (workload : Workload) (m : WorkloadManager W)
      → is_plain workload ≡ true
      → Mirrors m
      → (write_workload disk json workload m).0 ≡ true
      → Mirrors (write_workload disk json workload m).1
  unfolding write_workload
  write_workload-Mirrors workload m plain mirrors ok =
      elim (Option-cases (workload_path workload.name)) [
        | inl e ↦ let no : false ≡ true = rw (write_workload, e) at ok in cc
        | inr (path, e) ↦ elim (Option-cases (json.marshal workload)) [
          | inl f ↦ let no : false ≡ true = rw (write_workload, e, f) at ok in cc
          | inr (text, f) ↦ elim (Bool-cases (disk.write_file path text m.files).0) [
            | inr g ↦ let no : false ≡ true = rw (write_workload, e, f, g) at ok in cc
            | inl g ↦
                let place = workload_path-some workload.name path e in
                let read : disk.read_file (file_name workload.name)
                      (disk.write_file path text m.files).1
                    ≡ some text =
                  rw (← place) (d.written path text m.files g) in
                let kept : stored disk json (disk.write_file path text m.files).1 workload.name
                    ≡ some workload =
                  rw read (j workload text plain f) in
                rw (write_workload, e, f, g)
                  (changed-Mirrors m
                    (record {
                      workloads = put workload.name workload m.workloads;
                      files = (disk.write_file path text m.files).1;
                    })
                    workload.name mirrors
                    (lookup-put_self workload.name workload m.workloads ∙ sym kept)
                    (λ other apart. lookup-put_other workload.name other workload m apart)
                    (λ file apart.
                      d.written_alone path text file m.files g (λ same. apart (sym place ∙ same))))
          ]
        ]
      ]

  save_workload-Mirrors :
      (now : ℕ) (workload : Workload) (m : WorkloadManager W)
      → is_plain workload ≡ true
      → Mirrors m
      → (save_workload disk json now workload m).0 ≡ true
      → Mirrors (save_workload disk json now workload m).1
  unfolding save_workload
  save_workload-Mirrors now workload m plain mirrors ok =
      elim (Bool-cases (not (validate_workload_name workload.name) || no_oids workload.oids)) [
        | inl e ↦ let no : false ≡ true = rw (save_workload, e) at ok in cc
        | inr e ↦
            rw (save_workload, e)
              (write_workload-Mirrors (stamp now workload) m plain mirrors
                (rw (save_workload, e) at ok))
      ]

  delete_workload-Mirrors :
      (name : Bytes) (m : WorkloadManager W)
      → Mirrors m
      → (delete_workload disk name m).0 ≡ true
      → Mirrors (delete_workload disk name m).1
  unfolding delete_workload
  delete_workload-Mirrors name m mirrors ok = elim (Bool-cases (validate_workload_name name)) [
    | inr e ↦ let no : false ≡ true = rw (delete_workload, e) at ok in cc
    | inl e ↦ elim (Option-cases (workload_path name)) [
      | inl f ↦ let no : false ≡ true = rw (delete_workload, e, f) at ok in cc
      | inr (path, f) ↦
          let place = workload_path-some name path f in
          let good : (disk.remove path m.files).0 ≡ true = rw (delete_workload, e, f) at ok in
          let read : disk.read_file (file_name name) (disk.remove path m.files).1 ≡ none =
            rw (← place) (d.removed path m.files good) in
          let gone : lookup name (erase name m.workloads) ≡ none =
            rw (lookup-erase, (bytes_eq_iff name name).1 refl) refl in
          rw (delete_workload, e, f)
            (changed-Mirrors m
              (record { workloads = erase name m.workloads; files = (disk.remove path m.files).1 })
              name mirrors (rw read gone) (λ other apart. lookup-erase_other name other m apart)
              (λ file apart.
                d.removed_alone path file m.files good (λ same. apart (sym place ∙ same))))
    ]
  ]

  Reach-Mirrors : {m n : WorkloadManager W} → Mirrors m → Reach m n → Mirrors n
  Reach-Mirrors mirrors here = mirrors
  Reach-Mirrors mirrors (next reach (saved now workload plain ok)) =
      save_workload-Mirrors now workload _ plain (Reach-Mirrors mirrors reach) ok
  Reach-Mirrors mirrors (next reach (deleted name ok)) =
      delete_workload-Mirrors name _ (Reach-Mirrors mirrors reach) ok

  -- A manager is started in a directory, and saves workloads whose texts are ASCII and deletes
  -- workloads, all without an error. Then a new
  -- manager that is started in what the directory is now answers LoadWorkload as the first one does, for
  -- every name. The directory can be listed at both starts.
  pub restarted-load_workload :
      (w : W) (names later : List Bytes) (m : WorkloadManager W) (name : Bytes)
      → disk.read_dir w ≡ some names
      → Reach (new_workload_manager disk json w) m
      → disk.read_dir m.files ≡ some later
      → load_workload name (new_workload_manager disk json m.files) ≡ load_workload name m
  unfolding load_workload new_workload_manager Mirrors
  restarted-load_workload w names later m name e reach f =
      let started : Mirrors (new_workload_manager disk json w) =
        (λ n. load_from_disk-stored disk json w n names e (d.listed w names e)) in
      let same =
        load_from_disk-stored disk json m.files name later f (d.listed m.files later f)
        ∙ sym (Reach-Mirrors started reach name) in
      rw same refl
