-- ===== src/Security/Boots.antt =====
-- internal/v3/engine.go: the boots of engines over many starts.
use go_snmpsim.Prelude.{
  ℕ, suc, ◌+◌, ◌%◌, ◌^◌, ◌<◌, ◌≡◌, refl, ap, ◌∙◌, false, Option, none, some, List, [], ◌∷◌, Bytes,
  bytes_eq, bytes_eq_iff, All, text_eq, lookup, lookup-put, lookup-put_self, lookup-nil, arith,
  if◌then◌else◌, Bool-cases, inl, inr, ◌==◌, ==_iff,
}
use go_snmpsim.Security.{EngineState, States, next_state, ensure_boots}
use go_snmpsim.Security.Hex.{hex_encode, hex_encode_injective}

-- The engines start in this order.
pub start_all : List Bytes → States → States
start_all [] state = state
start_all (engine_id ∷ ids) state = start_all ids (ensure_boots engine_id state).1

-- How often an engine starts.
abbrev pub starts : Bytes → List Bytes → ℕ
starts engine_id [] = 0
starts engine_id (other ∷ ids) =
    if bytes_eq other engine_id then suc (starts engine_id ids) else starts engine_id ids

-- The state of an engine after so many starts.
abbrev pub after : Bytes → ℕ → Option EngineState
after engine_id n =
    if n == 0 then none else some (record { engine_id = hex_encode engine_id; boots = n % 2 ^ 32 })

abbrev pub IsText : Bytes → Type 0
IsText = All (λ c. c < 256)

abbrev boots_in : Option EngineState → ℕ
boots_in none = 0
boots_in (some st) = st.boots

next_state-after :
    (engine_id : Bytes) (n : ℕ)
    → some (next_state (hex_encode engine_id) (after engine_id n)) ≡ after engine_id (suc n)
next_state-after engine_id n = elim (Bool-cases (n == 0)) [
  | inl e ↦ rw ((==_iff n 0).0 e)
  | inr e ↦
      let more : (suc n == 0) ≡ false = ground arith in
      let step : (n % 2 ^ 32 + 1) % 2 ^ 32 ≡ suc n % 2 ^ 32 = omega arith in rw (e, more, step)
]

-- A start of an engine that started `n` times before.
pub ensure_boots-after :
    (engine_id : Bytes) (n : ℕ) (state : States)
    → lookup (hex_encode engine_id) state ≡ after engine_id n
    → ((ensure_boots engine_id state).0 ≡ suc n % 2 ^ 32)
      × (lookup (hex_encode engine_id) (ensure_boots engine_id state).1 ≡ after engine_id (suc n))
unfolding ensure_boots
ensure_boots-after engine_id n state e =
    let st = next_state (hex_encode engine_id) (lookup (hex_encode engine_id) state) in
    let same : some st ≡ after engine_id (suc n) = rw e (next_state-after engine_id n) in
    let more : (suc n == 0) ≡ false = ground arith in
    let shown : boots_in (after engine_id (suc n)) ≡ suc n % 2 ^ 32 = rw more refl in
    (ap boots_in same ∙ shown, lookup-put_self (hex_encode engine_id) st state ∙ same)

hex_differ :
    (s t : Bytes)
    → IsText s
    → IsText t
    → bytes_eq s t ≡ false
    → bytes_eq (hex_encode s) (hex_encode t) ≡ false
hex_differ s t h k d = elim (Bool-cases (bytes_eq (hex_encode s) (hex_encode t))) [
  | inr e ↦ e
  | inl e ↦
      let same = hex_encode_injective s t h k ((bytes_eq_iff (hex_encode s) (hex_encode t)).0 e) in
      absurd (cc (d, (bytes_eq_iff s t).1 same))
]

lookup-ensure_boots :
    (other engine_id : Bytes) (n : ℕ) (state : States)
    → IsText other
    → IsText engine_id
    → lookup (hex_encode engine_id) state ≡ after engine_id n
    → lookup (hex_encode engine_id) (ensure_boots other state).1
      ≡ after engine_id (if bytes_eq other engine_id then suc n else n)
unfolding ensure_boots
lookup-ensure_boots other engine_id n state h k e = elim (Bool-cases (bytes_eq other engine_id)) [
  | inl s ↦
      let same : other ≡ engine_id = (bytes_eq_iff other engine_id).0 s in
      rw (s, same, lookup-put_self, e) (next_state-after engine_id n)
  | inr d ↦ rw (lookup-put, hex_differ other engine_id h k d, d) e
]

starts-after :
    (ids : List Bytes) (engine_id : Bytes) (n : ℕ) (state : States)
    → All IsText ids
    → IsText engine_id
    → lookup (hex_encode engine_id) state ≡ after engine_id n
    → lookup (hex_encode engine_id) (start_all ids state)
      ≡ after engine_id (n + starts engine_id ids)
unfolding start_all
starts-after [] engine_id n state h k e = let same : n + 0 ≡ n = omega arith in rw same e
starts-after (other ∷ ids) engine_id n state h k e =
    let m = if bytes_eq other engine_id then suc n else n in
    let total : m + starts engine_id ids ≡ n + starts engine_id (other ∷ ids) = ground arith in
    starts-after ids engine_id m (ensure_boots other state).1 h.1 k
      (lookup-ensure_boots other engine_id n state h.0 k e)
    ∙ ap (after engine_id) total

-- After any sequence of starts from an empty store, the state of an engine that never started is
-- absent, and the boots of any other engine are the number of its starts modulo 2 ^ 32, whichever other
-- engines started in between; the identifiers consist of bytes.
pub start_all-boots :
    (ids : List Bytes) (engine_id : Bytes)
    → All IsText ids
    → IsText engine_id
    → lookup (hex_encode engine_id) (start_all ids []) ≡ after engine_id (starts engine_id ids)
start_all-boots ids engine_id h k =
    let none_yet : 0 + starts engine_id ids ≡ starts engine_id ids = omega arith in
    starts-after ids engine_id 0 [] h k (lookup-nil (hex_encode engine_id))
    ∙ ap (after engine_id) none_yet
