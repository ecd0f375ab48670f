-- ===== src/Labs/Paths.antt =====
-- cmd/snmpsim-api/main.go: the paths of labs, taken apart by the router.
use go_snmpsim.Prelude.{
  ℕ, ◌-◌, ◌^◌, ◌≡◌, refl, sym, ap, ◌∙◌, true, false, some, List, [], ◌∷◌, ◌++◌, append_assoc, Bytes,
  codes, is_empty, lookup-put_self, text_eq, Lacks, arith, Bool-cases, inl, inr, ◌==◌,
  if◌then◌else◌, ltb,
}
use mathlib.Core.List.{append-nil}
use go_snmpsim.Strconv.{print_int}
use go_snmpsim.Strconv.Scan.{split, in_first}
use go_snmpsim.Strconv.Parts.{decimal-Lacks, split-part, split-append}
use go_snmpsim.Labs
use go_snmpsim.Labs.{Lab, stopped, ResourceManager, Reply, answered, numbered}
use go_snmpsim.Labs.Routes.{
  get, post, delete, get_lab, delete_lab, start_lab, stop_lab, contains, flush, split_loop,
  split_path, handle_labs_detail, route,
}

abbrev pub non_empty : List Bytes → List Bytes
non_empty [] = []
non_empty (part ∷ parts) = let rest = non_empty parts in if is_empty part then rest else part ∷ rest

-- `s` in front of the first part.
in_front : Bytes → List Bytes → List Bytes
in_front s [] = []
in_front s (part ∷ parts) = (s ++ part) ∷ parts

in_front-in_first :
    (s : Bytes) (c : ℕ) (parts : List Bytes)
    → in_front (s ++ c ∷ []) parts ≡ in_front s (in_first c parts)
unfolding in_front
in_front-in_first s c [] = refl
in_front-in_first s c (part ∷ parts) = ap (λ t. t ∷ parts) (append_assoc s (c ∷ []) part)

in_front-nil : (parts : List Bytes) → in_front [] parts ≡ parts
unfolding in_front
in_front-nil [] = refl
in_front-nil (part ∷ parts) = refl

flush-non_empty :
    (current : Bytes) (parts rest : List Bytes)
    → flush current parts ++ non_empty rest ≡ parts ++ non_empty (current ∷ rest)
unfolding flush
flush-non_empty [] parts rest = refl
flush-non_empty (c ∷ s) parts rest = append_assoc parts ((c ∷ s) ∷ []) (non_empty rest)

flush_alone :
    (current : Bytes) (parts : List Bytes) → flush current parts ≡ parts ++ non_empty (current ∷ [])
unfolding flush
flush_alone [] parts = sym (append-nil parts)
flush_alone (c ∷ s) parts = refl

split_loop-split :
    (s : Bytes) (parts : List Bytes) (current : Bytes)
    → split_loop s parts current ≡ parts ++ non_empty (in_front current (split b'/' s))
unfolding split_loop split in_front
split_loop-split [] parts current = rw (append-nil current) (flush_alone current parts)
split_loop-split (c ∷ s) parts current = elim (Bool-cases (c == b'/')) [
  | inl e ↦
      rw (split_loop, split, e, split_loop-split s (flush current parts) [], in_front-nil)
        (rw (append-nil current) (flush-non_empty current parts (split b'/' s)))
  | inr e ↦
      rw (split_loop, split, e, split_loop-split s parts (current ++ c ∷ []))
        (ap (λ t. parts ++ non_empty t) (in_front-in_first current c (split b'/' s)))
]

-- `splitPath` is `strings.Split` without the empty parts.
pub split_path-split : (path : Bytes) → split_path path ≡ non_empty (split b'/' path)
unfolding split_path
split_path-split path = split_loop-split path [] [] ∙ ap non_empty (in_front-nil (split b'/' path))

-- An id that the router can tell apart: it is not empty and has no slash.
abbrev pub IsName : Bytes → Type 0
IsName id = (is_empty id ≡ false) × Lacks (λ c. c == b'/') id

contains-append : (id rest : Bytes) → contains (id ++ b'/' ∷ rest) b'/' ≡ true
unfolding contains
contains-append [] rest = refl
contains-append (c ∷ id) rest = rw (contains, contains-append id rest) (ground arith)

contains-none : (id : Bytes) → Lacks (λ c. c == b'/') id → contains id b'/' ≡ false
unfolding contains
contains-none [] h = refl
contains-none (c ∷ id) h = rw (h.0, contains-none id h.1) refl

split_path-pair :
    (id action : Bytes)
    → IsName id
    → IsName action
    → split_path (id ++ b'/' ∷ action) ≡ id ∷ action ∷ []
split_path-pair id action (full, plain) (full_action, plain_action) =
    rw
      (
        split_path-split,
        split-append b'/' id action plain,
        split-part b'/' action plain_action,
        full,
        full_action,
      )
      refl

-- The router passes the id in a lab's path to the handlers, for an id without slashes that is not
-- empty: GET and DELETE of `/labs/{id}`, POST of `/labs/{id}/start` and `/labs/{id}/stop`.
pub route-lab :
    (id : Bytes)
    → IsName id
    → (route get (codes "/labs/" ++ id) ≡ get_lab id)
      × (route delete (codes "/labs/" ++ id) ≡ delete_lab id)
      × (route post (codes "/labs/" ++ id ++ codes "/start") ≡ start_lab id)
      × (route post (codes "/labs/" ++ id ++ codes "/stop") ≡ stop_lab id)
unfolding route handle_labs_detail
route-lab id (full, plain) =
    let apart = contains-none id plain in
    let with_start = contains-append id (codes "start") in
    let with_stop = contains-append id (codes "stop") in
    (
      rw apart refl,
      rw apart refl,
      rw
          (
            with_start,
            split_path-pair id (codes "start") (full, plain)
                (refl, (refl, (refl, (refl, (refl, (refl, tt)))))),
          )
          refl,
      rw
          (
            with_stop,
            split_path-pair id (codes "stop") (full, plain)
                (refl, (refl, (refl, (refl, (refl, tt))))),
          )
          refl,
    )

print_int-plain : (n : ℕ) → Lacks (λ c. c == b'/') (print_int n)
unfolding print_int
print_int-plain n = elim (Bool-cases (ltb n (2 ^ 63))) [
  | inl e ↦ rw e (decimal-Lacks (λ c. c == b'/') n (λ c h. ground arith))
  | inr e ↦ rw e (refl, decimal-Lacks (λ c. c == b'/') (2 ^ 64 - n) (λ c h. ground arith))
]

numbered-IsName : (n : ℕ) → IsName (numbered (codes "lab") n)
unfolding numbered
numbered-IsName n = (refl, (refl, (refl, (refl, (refl, print_int-plain n)))))

-- A lab that is created is answered with an id, under which the router finds it: GET of its path
-- answers the lab as it was created, and its three other requests reach it.
pub create_lab-get :
    {S : Type 0} (now : ℕ) (name engine_id : Bytes) (rm : ResourceManager S)
    → let (reply, left) = Labs.create_lab now (some (name, engine_id)) rm in
      (lab : Lab) × (reply ≡ answered 201 lab)
      × (route get (codes "/labs/" ++ lab.id) ≡ get_lab lab.id)
      × (Labs.get_lab lab.id left ≡ answered 200 lab)
      × (route delete (codes "/labs/" ++ lab.id) ≡ delete_lab lab.id)
      × (route post (codes "/labs/" ++ lab.id ++ codes "/start") ≡ start_lab lab.id)
      × (route post (codes "/labs/" ++ lab.id ++ codes "/stop") ≡ stop_lab lab.id)
unfolding Labs.create_lab Labs.get_lab
create_lab-get now name engine_id rm =
    let id = numbered (codes "lab") rm.next_id in
    let lab : Lab = record {
      id = id;
      name = name;
      engine_id = engine_id;
      status = stopped;
      created_at = now;
    } in
    let (gets, deletes, starts, stops) = route-lab id (numbered-IsName rm.next_id) in
    (
      lab,
      refl,
      gets,
      rw (Labs.get_lab, lookup-put_self id lab rm.labs) refl,
      deletes,
      starts,
      stops,
    )
