-- ===== src/Agent/Hmac.antt =====
-- internal/agent/agent.go: `verifyIncomingHMAC`. The HMAC of the standard library is a parameter; no
-- error is `true`.
use go_snmpsim.Prelude.{
  ℕ, zero, suc, ◌+◌, ◌-◌, ◌%◌, ◌≤◌, ◌<◌, ◌≡◌, inl, inr, refl, Bool, true, false, ◌&&◌, Option, none,
  some, [], ◌∷◌, Bytes, is_empty, bytes_eq, bytes_eq_iff, length, get_or, set, take, drop, ltb,
  ◌==◌, arith, Option-cases, Bool-cases, if◌then◌else◌, ℕ_trichotomy,
}
use go_snmpsim.Security.{AuthProtocol, no_auth}

-- The digest stands at `i`, behind its tag and its length.
abbrev pub has_digest : Bytes → Bytes → ℕ → Bool
has_digest raw received i =
    let auth_len = length received % 256 in
    get_or raw i 0 == 4
    && (get_or raw (i + 1) 0 == auth_len && bytes_eq (take auth_len (drop (i + 2) raw)) received)

-- The search from `i` on, with `left` rounds to go.
pub find_loop : Bytes → Bytes → ℕ → ℕ → Option ℕ
find_loop raw received zero i = none
find_loop raw received (suc left) i =
    let rest = find_loop raw received left (i + 1) in
    if has_digest raw received i then some (i + 2) else rest

abbrev pub search_limit : Bytes → ℕ
search_limit raw = if ltb 200 (length raw) then 200 else length raw

-- The rounds of the search.
abbrev pub rounds : Bytes → Bytes → ℕ
rounds raw received = search_limit raw - length received % 256 - 1

-- The place of the first byte of the digest in the packet.
unfoldable pub find_digest : Bytes → Bytes → Option ℕ
unfolding find_loop
find_digest raw received = find_loop raw received (rounds raw received) 0

-- `rawCopy[i] = 0`, for `n` bytes from `i` on.
unfoldable pub zero_range : Bytes → ℕ → ℕ → Bytes
zero_range raw i zero = raw
zero_range raw i (suc n) = zero_range (set raw i 0) (i + 1) n

abbrev is_no_auth : AuthProtocol → Bool
is_no_auth no_auth = true
is_no_auth proto = false

module _ (hmac : AuthProtocol → Bytes → Bytes → Bytes) where
  -- The HMAC of the packet without its digest, cut to the length that was received.
  pub expected : AuthProtocol → Bytes → Bytes → Bytes → ℕ → Bytes
  unfolding zero_range
  expected proto secret_key raw received idx =
      take (length received) (hmac proto secret_key (zero_range raw idx (length received % 256)))

  abbrev checked : AuthProtocol → Bytes → Bytes → Bytes → Option ℕ → Bool
  checked proto secret_key raw received none = true
  checked proto secret_key raw received (some idx) =
      bytes_eq (expected proto secret_key raw received idx) received

  -- `received` holds the authentication parameters of the request, `none` without USM.
  unfoldable pub verify_incoming_hmac : AuthProtocol → Bytes → Bytes → Option Bytes → Bool
  unfolding find_digest expected
  verify_incoming_hmac proto secret_key raw none = true
  verify_incoming_hmac proto secret_key raw (some received) =
      if is_empty received
      then true
      else if is_no_auth proto
      then true
      else if is_empty secret_key
      then true
      else checked proto secret_key raw received (find_digest raw received)

  -- Why a packet passes.
  pub data Passes (proto : AuthProtocol) (secret_key raw received : Bytes) : Type 0 where
    unsigned : received ≡ [] → Passes proto secret_key raw received
    no_protocol : proto ≡ no_auth → Passes proto secret_key raw received
    no_key : secret_key ≡ [] → Passes proto secret_key raw received
    not_found :
        ((i : ℕ) → i < rounds raw received → has_digest raw received i ≡ false)
        → Passes proto secret_key raw received
    verified :
        (i : ℕ)
        → i < rounds raw received
        → has_digest raw received i ≡ true
        → expected proto secret_key raw received (i + 2) ≡ received
        → Passes proto secret_key raw received

empty : (s : Bytes) → is_empty s ≡ true → s ≡ []
empty [] h = refl
empty (c ∷ s) h = cc

no_auth_of : (proto : AuthProtocol) → is_no_auth proto ≡ true → proto ≡ no_auth
no_auth_of no_auth h = refl
no_auth_of proto h = cc

find_loop-some :
    (raw received : Bytes) (left i idx : ℕ)
    → find_loop raw received left i ≡ some idx
    → (j : ℕ) × (j < i + left) × (has_digest raw received j ≡ true) × (idx ≡ j + 2)
unfolding find_loop
find_loop-some raw received zero i idx h = cc
find_loop-some raw received (suc left) i idx h = elim (Bool-cases (has_digest raw received i)) [
  | inl here ↦ (i, omega arith, here, ground (arith, here, h))
  | inr not_here ↦
      let (j, near, found, place) =
        find_loop-some raw received left (i + 1) idx (rw (find_loop, not_here) at h) in
      (j, omega (arith, near), found, place)
]

find_loop-none :
    (raw received : Bytes) (left i : ℕ)
    → find_loop raw received left i ≡ none
    → (j : ℕ) → i ≤ j
    → j < i + left
    → has_digest raw received j ≡ false
unfolding find_loop
find_loop-none raw received zero i h j p q = absurd (omega arith)
find_loop-none raw received (suc left) i h j p q = elim (Bool-cases (has_digest raw received i)) [
  | inl here ↦ cc (rw (find_loop, here) at h)
  | inr not_here ↦ elim (ℕ_trichotomy i j) [
    | inl lt ↦
        find_loop-none raw received left (i + 1) (rw (find_loop, not_here) at h) j (omega arith)
          (omega arith)
    | inr (inl same) ↦ rw (← same) not_here
    | inr (inr gt) ↦ absurd (omega arith)
  ]
]

module _ (hmac : AuthProtocol → Bytes → Bytes → Bytes) (proto : AuthProtocol)
    (secret_key raw : Bytes) where
  checked-Passes :
      (received : Bytes)
      → checked hmac proto secret_key raw received (find_digest raw received) ≡ true
      → Passes hmac proto secret_key raw received
  unfolding find_digest
  checked-Passes received h = elim (Option-cases (find_digest raw received)) [
    | inl e ↦ not_found (λ i lt.
        find_loop-none raw received (rounds raw received) 0 e i (omega arith) (omega (arith, lt)))
    | inr (idx, e) ↦
        let (j, near, found, place) = find_loop-some raw received (rounds raw received) 0 idx e in
        let same : bytes_eq (expected hmac proto secret_key raw received idx) received ≡ true =
          rw (e, checked) at h in
        verified j (omega (arith, near)) found (rw (← place) ((bytes_eq_iff _ received).0 same))
  ]

  -- A request with authentication parameters that `verifyIncomingHMAC` lets pass has at a place that is
  -- searched a digest equal to the HMAC of the packet without it, cut to the length of the digest;
  -- except that it also passes if the parameters are empty, if no protocol or no key is configured, and
  -- if no place that is searched holds the digest.
  pub verify_incoming_hmac-Passes :
      (received : Bytes)
      → verify_incoming_hmac hmac proto secret_key raw (some received) ≡ true
      → Passes hmac proto secret_key raw received
  unfolding verify_incoming_hmac
  verify_incoming_hmac-Passes received h = elim (Bool-cases (is_empty received)) [
    | inl e ↦ unsigned (empty received e)
    | inr signed ↦ elim (Bool-cases (is_no_auth proto)) [
      | inl e ↦ no_protocol (no_auth_of proto e)
      | inr with_protocol ↦ elim (Bool-cases (is_empty secret_key)) [
        | inl e ↦ no_key (empty secret_key e)
        | inr with_key ↦ checked-Passes received (rw (signed, with_protocol, with_key) at h)
      ]
    ]
  ]
