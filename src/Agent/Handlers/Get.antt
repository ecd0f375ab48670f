-- ===== src/Agent/Handlers/Get.antt =====
-- internal/agent/agent.go: what a GET answers.
use mathlib.Core.List.{append-nil}
use mathlib.Core.Path.{subst}
use go_snmpsim.Prelude.{
  none, ℕ, ◌≡◌, refl, ap, sym, ◌∙◌, ◌⊎◌, Option, inl, inr, List, [], ◌∷◌, ◌++◌, append_assoc, Bytes,
  text_eq,
}
use go_snmpsim.Snmp.{Pdu}
use go_snmpsim.Database.{OidDatabase}
use go_snmpsim.Variation.{Outcome, done, failed, panicked, err_drop_oid, err_timeout}
use go_snmpsim.Variation.Failures.{Keeps}
use go_snmpsim.Variation.Binder.{apply_binder}
use go_snmpsim.Variation.Binder.Longest.{apply_binder-Keeps}
use go_snmpsim.Agent.{VirtualAgent, Outside, get_oid_value}
use go_snmpsim.Agent.Handlers.{
  Reply, response, no_reply, crashed, Varied, sent, dropped, timed_out, broken, varied_of, pdu_of,
  State, apply_variations, vary_value, get_loop, handle_get_request,
}

-- A list is another one with entries left out.
pub data IsSubsequence {ℓ} {A : Type ℓ} : List A → List A → Type ℓ where
  empty : IsSubsequence [] []
  kept : (x : A) {xs ys : List A} → IsSubsequence xs ys → IsSubsequence (x ∷ xs) (x ∷ ys)
  left_out : (y : A) {xs ys : List A} → IsSubsequence xs ys → IsSubsequence xs (y ∷ ys)

abbrev pub names_of : List Pdu → List Bytes
names_of [] = []
names_of (p ∷ ps) = p.name ∷ names_of ps

pub names_of-append : (ps qs : List Pdu) → names_of (ps ++ qs) ≡ names_of ps ++ names_of qs
names_of-append [] qs = refl
names_of-append (p ∷ ps) qs = ap (◌∷◌ p.name) (names_of-append ps qs)

-- A response without an error to `names`, behind the variables that are there already.
abbrev pub Answers : List Bytes → List Pdu → Reply → Type 0
Answers names vars (response out error index) =
    ((rest : List Pdu) × (out ≡ vars ++ rest) × IsSubsequence (names_of rest) names)
    × (error ≡ 0)
    × (index ≡ 0)
Answers names vars no_reply = Unit
Answers names vars crashed = Unit

-- An answer with this name, or none.
abbrev pub IsNamed : Bytes → Varied → Type 0
IsNamed name (sent pdu) = pdu.name ≡ name
IsNamed name dropped = Unit
IsNamed name timed_out = Unit
IsNamed name broken = Unit

pub Keeps-IsNamed : (pdu : Pdu) (o : Outcome) → Keeps pdu o → IsNamed pdu.name (varied_of o)
Keeps-IsNamed pdu (done q) k = k.0
Keeps-IsNamed pdu (failed err_drop_oid q) k = tt
Keeps-IsNamed pdu (failed err_timeout q) k = tt
Keeps-IsNamed pdu panicked k = tt

pub Varied-cases :
    (v : Varied)
    → ((pdu : Pdu) × (v ≡ sent pdu)) ⊎ ((v ≡ dropped) ⊎ ((v ≡ timed_out) ⊎ (v ≡ broken)))
Varied-cases (sent pdu) = inl (pdu, refl)
Varied-cases dropped = inr (inl refl)
Varied-cases timed_out = inr (inr (inl refl))
Varied-cases broken = inr (inr (inr refl))

skip :
    (name : Bytes) (names : List Bytes) (vars : List Pdu) (r : Reply)
    → Answers names vars r
    → Answers (name ∷ names) vars r
skip name names vars (response out e i) ((rest, p, q), k, l) = ((rest, p, left_out name q), k, l)
skip name names vars no_reply a = tt
skip name names vars crashed a = tt

keep :
    (name : Bytes) (pdu : Pdu) (names : List Bytes) (vars : List Pdu) (r : Reply)
    → pdu.name ≡ name
    → Answers names (vars ++ pdu ∷ []) r
    → Answers (name ∷ names) vars r
keep name pdu names vars (response out e i) same ((rest, p, q), k, l) = (
  (
    pdu ∷ rest,
    p ∙ append_assoc vars (pdu ∷ []) rest,
    subst (λ n. IsSubsequence (pdu.name ∷ names_of rest) (n ∷ names)) same (kept pdu.name q),
  ),
  k,
  l,
)
keep name pdu names vars no_reply same a = tt
keep name pdu names vars crashed same a = tt

module _ {Rng W : Type 0} (int63n : Rng → ℕ → ℕ × Rng) (outside : Outside W) (va : VirtualAgent)
    (now : ℕ) (odb : Option OidDatabase) where
  vary_value-IsNamed :
      (name : Bytes) (s : State Rng W)
      → IsNamed name (vary_value int63n outside va now odb name s).0
  unfolding vary_value apply_variations
  vary_value-IsNamed name s =
      let read = get_oid_value outside va odb name s.world in
      Keeps-IsNamed (pdu_of name read.0) _
        (apply_binder-Keeps int63n now (pdu_of name read.0) s.binder)

  get_loop-Answers :
      (names : List Bytes) (vars : List Pdu) (s : State Rng W)
      → Answers names vars (get_loop int63n outside va now odb names vars s).0
  unfolding get_loop
  get_loop-Answers [] vars s = (([], sym (append-nil vars), empty), refl, refl)
  get_loop-Answers (name ∷ names) vars s =
      let v = vary_value int63n outside va now odb name s in
      elim (Varied-cases v.0) [
        | inl (pdu, e) ↦
            let named : pdu.name ≡ name = rw e at (vary_value-IsNamed name s) in
            rw (e, get_loop)
              (keep name pdu names vars _ named (get_loop-Answers names (vars ++ pdu ∷ []) v.1))
        | inr (inl e) ↦ rw (e, get_loop) (skip name names vars _ (get_loop-Answers names vars v.1))
        | inr (inr (inl e)) ↦ rw (e, get_loop) tt
        | inr (inr (inr e)) ↦ rw (e, get_loop) tt
      ]

  -- Whatever the variations do, the response to a GET holds no error, and the names of its variables
  -- are among those that were asked for, in the order of the request.
  pub handle_get_request-Answers :
      (names : List Bytes) (s : State Rng W)
      → Answers names [] (handle_get_request int63n outside va now odb names s).0
  unfolding handle_get_request
  handle_get_request-Answers names s = get_loop-Answers names [] s

-- The variables that a GET reads, in order.
pub reads :
    {W : Type 0} → Outside W → VirtualAgent → Option OidDatabase → List Bytes → W → List Pdu × W
reads outside va odb [] w = ([], w)
reads outside va odb (name ∷ names) w =
    let read = get_oid_value outside va odb name w in
    let rest = reads outside va odb names read.1 in (pdu_of name read.0 ∷ rest.0, rest.1)

module _ {Rng W : Type 0} (int63n : Rng → ℕ → ℕ × Rng) (outside : Outside W) (va : VirtualAgent)
    (now : ℕ) (odb : Option OidDatabase) where
  get_loop-reads :
      (names : List Bytes) (vars : List Pdu) (w : W)
      → get_loop int63n outside va now odb names vars (record { binder = none; world = w }) ≡ (
        response (vars ++ (reads outside va odb names w).0) 0 0,
        record { binder = none; world = (reads outside va odb names w).1 },
      )
  unfolding get_loop vary_value apply_variations apply_binder reads
  get_loop-reads [] vars w = rw (append-nil vars)
  get_loop-reads (name ∷ names) vars w =
      let read = get_oid_value outside va odb name w in
      let pdu = pdu_of name read.0 in
      get_loop-reads names (vars ++ pdu ∷ []) read.1
      ∙ ap
          (λ l. (
            response l 0 0,
            record { binder = none; world = (reads outside va odb names read.1).1 },
          ))
          (append_assoc vars (pdu ∷ []) (reads outside va odb names read.1).0)

-- Without variations, a GET is answered without an error by one variable for each name that was asked
-- for, in order, with the value that the agent has for it at that moment.
pub handle_get_request-reads :
    {Rng W : Type 0} (int63n : Rng → ℕ → ℕ × Rng) (outside : Outside W) (va : VirtualAgent)
    (now : ℕ) (odb : Option OidDatabase) (names : List Bytes) (w : W)
    → handle_get_request int63n outside va now odb names (record { binder = none; world = w }) ≡ (
      response (reads outside va odb names w).0 0 0,
      record { binder = none; world = (reads outside va odb names w).1 },
    )
unfolding handle_get_request
handle_get_request-reads int63n outside va now odb names w =
    get_loop-reads int63n outside va now odb names [] w
