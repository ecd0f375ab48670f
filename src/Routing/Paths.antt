-- ===== src/Routing/Paths.antt =====
-- internal/routing/routing.go: the datasets that a router needs.
use go_snmpsim.Prelude.{
  ◌≡◌, not, ◌&&◌, Bool-cases, Bool, false, ◌||◌, some, List, [], ◌∷◌, ◌++◌, All-append, AllPairs,
  Bytes, is_empty, bytes_eq, bytes_eq_iff, trim_space, arith, inl, inr,
}
use go_snmpsim.Routing.{Rule, Router, elem, dataset_paths_loop, dataset_paths}

-- A rule names the dataset at this path.
pub named_by : Bytes → List Rule → Bool
named_by p [] = false
named_by p (rule ∷ rules) = bytes_eq (trim_space rule.action.dataset_path) p || named_by p rules

pub elem-append :
    (p q : Bytes) (out : List Bytes) → elem p (out ++ q ∷ []) ≡ (elem p out || bytes_eq q p)
elem-append p q [] = ground arith
elem-append p q (x ∷ out) = ground (arith, elem-append p q out)

loop-elem :
    (p : Bytes) (rules : List Rule) (out : List Bytes)
    → elem p (dataset_paths_loop rules out) ≡ (elem p out || (not (is_empty p) && named_by p rules))
unfolding dataset_paths_loop named_by
loop-elem p [] out = ground arith
loop-elem p (rule ∷ rules) out =
    let path = trim_space rule.action.dataset_path in
    ground (
      arith,
      loop-elem p rules out,
      loop-elem p rules (out ++ path ∷ []),
      elem-append p path out,
      bytes_eq_iff path p,
    )

abbrev Distinct : List Bytes → Type 0
Distinct = AllPairs (λ a b. bytes_eq a b ≡ false)

Distinct-append :
    (out : List Bytes) (q : Bytes) → Distinct out → elem q out ≡ false → Distinct (out ++ q ∷ [])
Distinct-append [] q h e = (tt, tt)
Distinct-append (x ∷ out) q h e = (
  All-append (λ b. bytes_eq x b ≡ false) out (q ∷ []) h.0 (ground arith, tt),
  Distinct-append out q h.1 (ground arith),
)

loop-Distinct :
    (rules : List Rule) (out : List Bytes) → Distinct out → Distinct (dataset_paths_loop rules out)
unfolding dataset_paths_loop
loop-Distinct [] out h = h
loop-Distinct (rule ∷ rules) out h =
    let path = trim_space rule.action.dataset_path in
    elim (Bool-cases (is_empty path)) [
      | inl e ↦ rw (e, dataset_paths_loop) (loop-Distinct rules out h)
      | inr e ↦ elim (Bool-cases (elem path out)) [
        | inl f ↦ rw (e, f, dataset_paths_loop) (loop-Distinct rules out h)
        | inr f ↦
            rw (e, f, dataset_paths_loop)
              (loop-Distinct rules (out ++ path ∷ []) (Distinct-append out path h f))
      ]
    ]

-- `DatasetPaths` lists the trimmed paths of the rules that are not blank, all of them and nothing
-- else, and none of them twice.
pub dataset_paths_exact :
    (r : Router)
    → ((p : Bytes) → elem p (dataset_paths (some r)) ≡ (not (is_empty p) && named_by p r.routes))
      × AllPairs (λ a b. bytes_eq a b ≡ false) (dataset_paths (some r))
unfolding dataset_paths
dataset_paths_exact r = (λ p. loop-elem p r.routes [], loop-Distinct r.routes [] tt)
