-- ===== src/Workloads/Files.antt =====
-- internal/webui/workload_manager.go: the names of workloads and of their files, and what is loaded from
-- a directory.
use go_snmpsim.Prelude.{
  ℕ, ◌≡◌, ◌≢◌, refl, sym, ap, ◌∙◌, Bool, true, false, Option, none, some, List, [], ◌∷◌, Mem, Bytes,
  bytes_eq, bytes_eq_iff, text_eq, Map, lookup, lookup-put, lookup-put_self, lookup-nil, length,
  length-append, arith, Option-cases, Bool-cases, inl, inr, ◌⊎◌, ◌||◌,
}
use mathlib.Core.List.{mem-cons, not-mem-nil}
use mathlib.Core.Logic.Or
use go_snmpsim.Workloads.{
  Workload, Disk, Json, json_suffix, file_name, name_of_file, decoded, load_file, load_loop,
  load_from_disk,
}

pub differ_of : (s t : Bytes) → bytes_eq s t ≡ false → s ≢ t
differ_of s t e same = let yes = (bytes_eq_iff s t).1 same in cc

abbrev is_in : Bytes → List Bytes → Bool
is_in s [] = false
is_in s (t ∷ ts) = bytes_eq t s || is_in s ts

is_in-mem : (s : Bytes) (ts : List Bytes) → Mem s ts → is_in s ts ≡ true
is_in-mem s [] h = absurd (not-mem-nil h)
is_in-mem s (t ∷ ts) h =
    let prop : IsProp (is_in s (t ∷ ts) ≡ true) = hlevel in
    Or.elim prop (mem-cons.0 h) (λ e. ground (arith, (bytes_eq_iff t s).1 (sym e)))
      (λ k. ground (arith, is_in-mem s ts k))

pub bytes_differ : (s t : Bytes) → s ≢ t → bytes_eq s t ≡ false
bytes_differ s t d = elim (Bool-cases (bytes_eq s t)) [
  | inr e ↦ e
  | inl e ↦ absurd (d ((bytes_eq_iff s t).0 e))
]

longer : (c : ℕ) (s : Bytes) → bytes_eq (c ∷ file_name s) json_suffix ≡ false
longer c s = elim (Bool-cases (bytes_eq (c ∷ file_name s) json_suffix)) [
  | inr e ↦ e
  | inl e ↦
      let same = ap length ((bytes_eq_iff (c ∷ file_name s) json_suffix).0 e) in
      let counted = length-append s json_suffix in absurd (omega (arith, same, counted))
]

pub name_of_file-file_name : (name : Bytes) → name_of_file (file_name name) ≡ some name
unfolding name_of_file
name_of_file-file_name [] = refl
name_of_file-file_name (c ∷ s) = rw (longer c s, name_of_file-file_name s)

pub name_of_file_sound : (file name : Bytes) → name_of_file file ≡ some name → file ≡ file_name name
unfolding name_of_file
name_of_file_sound [] name h = cc
name_of_file_sound (c ∷ s) name h = elim (Bool-cases (bytes_eq (c ∷ s) json_suffix)) [
  | inl e ↦
      let empty : some [] ≡ some name = rw e at h in
      let same = (bytes_eq_iff (c ∷ s) json_suffix).0 e in
      let is : ◌≡◌ {A = Bytes} [] name = cc in rw (← is) same
  | inr e ↦ elim (Option-cases (name_of_file s)) [
    | inl f ↦ let no : none ≡ some name = rw (e, f) at h in cc
    | inr (rest, f) ↦
        let more : some (c ∷ rest) ≡ some name = rw (e, f) at h in
        let tail = name_of_file_sound s rest f in
        let is : ◌≡◌ {A = Bytes} (c ∷ rest) name = cc in rw (← is) (ap (λ t. c ∷ t) tail)
  ]
]

module _ {W T : Type 0} (disk : Disk W T) (json : Json T) (w : W) (name : Bytes) where
  -- The workload in the file of a name.
  abbrev pub stored : Option Workload
  stored = decoded disk json (disk.read_file (file_name name) w)

  load_file_same :
      (m : Map Bytes Workload)
      → (lookup name m ≡ none) ⊎ (lookup name m ≡ stored)
      → lookup name (load_file disk json w (file_name name) m) ≡ stored
  unfolding load_file
  load_file_same m h = elim (Option-cases stored) [
    | inl e ↦ rw (load_file, name_of_file-file_name name, e) (elim h [ inl a ↦ a | inr b ↦ b ∙ e ])
    | inr (workload, e) ↦
        rw (load_file, name_of_file-file_name name, e) (lookup-put_self name workload m)
  ]

  load_file_other :
      (file : Bytes) (m : Map Bytes Workload)
      → file ≢ file_name name
      → lookup name (load_file disk json w file m) ≡ lookup name m
  unfolding load_file
  load_file_other file m d = elim (Option-cases (name_of_file file)) [
    | inl e ↦ rw (load_file, e) refl
    | inr (other, e) ↦
        let differ : other ≢ name = (λ same. d (rw (← same) (name_of_file_sound file other e))) in
        elim (Option-cases (decoded disk json (disk.read_file file w))) [
          | inl f ↦ rw (load_file, e, f) refl
          | inr (workload, f) ↦
              rw (load_file, e, f, lookup-put, bytes_differ other name differ) refl
        ]
  ]

  load_loop-settled :
      (files : List Bytes) (m : Map Bytes Workload)
      → lookup name m ≡ stored
      → lookup name (load_loop disk json w files m) ≡ stored
  unfolding load_loop
  load_loop-settled [] m h = h
  load_loop-settled (file ∷ files) m h =
      load_loop-settled files (load_file disk json w file m)
        (elim (Bool-cases (bytes_eq file (file_name name))) [
          | inl e ↦
              let same = (bytes_eq_iff file (file_name name)).0 e in
              rw same (load_file_same m (inr h))
          | inr e ↦ load_file_other file m (differ_of file (file_name name) e) ∙ h
        ])

  load_loop-found :
      (files : List Bytes) (m : Map Bytes Workload)
      → lookup name m ≡ none
      → is_in (file_name name) files ≡ true
      → lookup name (load_loop disk json w files m) ≡ stored
  unfolding load_loop
  load_loop-found [] m h k = cc
  load_loop-found (file ∷ files) m h k = elim (Bool-cases (bytes_eq file (file_name name))) [
    | inl e ↦
        let same = (bytes_eq_iff file (file_name name)).0 e in
        load_loop-settled files (load_file disk json w file m) (rw same (load_file_same m (inl h)))
    | inr e ↦
        load_loop-found files (load_file disk json w file m)
          (load_file_other file m (differ_of file (file_name name) e) ∙ h) (rw e at k)
  ]

  -- What is loaded under a name is what its file holds, if the directory lists the files that can be
  -- read.
  pub load_from_disk-stored :
      (names : List Bytes)
      → disk.read_dir w ≡ some names
      → ((file : Bytes) (text : T) → disk.read_file file w ≡ some text → Mem file names)
      → lookup name (load_from_disk disk json w) ≡ stored
  unfolding load_from_disk
  load_from_disk-stored names e listed = elim (Option-cases (disk.read_file (file_name name) w)) [
    | inl absent ↦ rw (load_from_disk, e) (load_loop-settled names [] (rw absent (lookup-nil name)))
    | inr (text, found) ↦
        rw (load_from_disk, e)
          (load_loop-found names [] (lookup-nil name)
            (is_in-mem (file_name name) names (listed (file_name name) text found)))
  ]
