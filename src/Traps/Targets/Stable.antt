-- ===== src/Traps/Targets/Stable.antt =====
-- internal/traps/traps.go: targets that have been normalised.
use go_snmpsim.Prelude.{
  ◌≡◌, refl, ap, true, false, ◌&&◌, ◌||◌, Option, none, some, [], ◌∷◌, ◌++◌, append_assoc, Bytes,
  is_empty, arith, Option-cases, Bool-cases, inl, inr,
}
use go_snmpsim.Strconv.{atoi, cut_last, contains_byte}
use go_snmpsim.Strconv.Cuts.{
  Without, cut-append, cut_last-append, contains_byte-lacking, cut_last-behind,
}
use go_snmpsim.Traps.Targets.{
  bracketed, host_of, no_brackets, split_host_port, join_host_port, is_number, checked_target,
  normalize_target,
}

-- A host and a port that `SplitHostPort` may return.
record IsSplit (host port : Bytes) : Type 0 where
  host_clean : no_brackets host ≡ true
  port_clean : no_brackets port ≡ true
  port_last : Without b':' port

some_pair :
    {p q r s : Bytes}
    → ◌≡◌ {A = Option (Bytes × Bytes)} (some (p, r)) (some (q, s))
    → (p ≡ q) × (r ≡ s)
some_pair h = (cc, cc)

split_host_port-IsSplit :
    (t host port : Bytes) → split_host_port t ≡ some (host, port) → IsSplit host port
unfolding split_host_port
split_host_port-IsSplit t host port h = elim (Option-cases (cut_last b':' t)) [
  | inl e ↦ cc (rw (split_host_port, e) at h)
  | inr ((before, behind), e) ↦ elim (Option-cases (host_of before)) [
    | inl f ↦ cc (rw (split_host_port, e, f) at h)
    | inr (found, f) ↦ elim (Bool-cases (no_brackets found && no_brackets behind)) [
      | inr bad ↦ cc (rw (split_host_port, e, f, bad) at h)
      | inl good ↦
          let (same_host, same_port) = some_pair (rw (split_host_port, e, f, good) at h) in
          let behind_last = cut_last-behind b':' t {p = before} {rest = behind} e in
          record {
            host_clean = rw (← same_host) (ground (arith, good));
            port_clean = rw (← same_port) (ground (arith, good));
            port_last = rw (← same_port) behind_last;
          }
    ]
  ]
]

split_of_parts :
    (t before host port : Bytes)
    → IsSplit host port
    → cut_last b':' t ≡ some (before, port)
    → host_of before ≡ some host
    → split_host_port t ≡ some (host, port)
unfolding split_host_port
split_of_parts t before host port s e f = rw (e, split_host_port, f, s.host_clean, s.port_clean)

bracketed-closed : (host : Bytes) → Without b']' host → bracketed (host ++ b']' ∷ []) ≡ some host
unfolding bracketed
bracketed-closed host h = let e = cut-append b']' host [] h in rw (bracketed, e, e)

host_of-bracketed :
    (host : Bytes)
    → contains_byte b']' host ≡ false
    → host_of (b'[' ∷ (host ++ b']' ∷ [])) ≡ some host
unfolding host_of
host_of-bracketed host h = bracketed-closed host (contains_byte-lacking b']' host h)

host_of-plain :
    (host : Bytes)
    → is_empty host ≡ false
    → contains_byte b'[' host ≡ false
    → contains_byte b':' host ≡ false
    → host_of host ≡ some host
unfolding host_of contains_byte
host_of-plain [] h bracket colon = cc
host_of-plain (c ∷ host) h bracket colon = ground (arith, bracket, colon)

split_host_port-join :
    (host port : Bytes)
    → IsSplit host port
    → is_empty host ≡ false
    → split_host_port (join_host_port host port) ≡ some (host, port)
unfolding join_host_port
split_host_port-join host port s h =
    let closing : contains_byte b']' host ≡ false = ground (arith, s.host_clean) in
    let opening : contains_byte b'[' host ≡ false = ground (arith, s.host_clean) in
    elim (Bool-cases (contains_byte b':' host)) [
      | inl colon ↦
          let before = b'[' ∷ (host ++ b']' ∷ []) in
          let joined : before ++ b':' ∷ port ≡ b'[' ∷ (host ++ b']' ∷ b':' ∷ port) =
            ap (λ r. b'[' ∷ r) (append_assoc host (b']' ∷ []) (b':' ∷ port)) in
          rw (colon, ← joined)
            (split_of_parts (before ++ b':' ∷ port) before host port s
              (cut_last-append b':' before port s.port_last) (host_of-bracketed host closing))
      | inr plain ↦ rw plain (
          split_of_parts (host ++ b':' ∷ port) host host port s
            (cut_last-append b':' host port s.port_last) (host_of-plain host h opening plain))
    ]

checked_target-accepts :
    (o : Option (Bytes × Bytes)) {t : Bytes}
    → checked_target o ≡ some t
    → (host : Bytes) × (port : Bytes) × (o ≡ some (host, port))
      × (is_empty host ≡ false)
      × (t ≡ join_host_port host port)
      × (checked_target (some (host, port)) ≡ some (join_host_port host port))
checked_target-accepts none h = cc
checked_target-accepts (some (host, port)) {t} h =
    elim (Bool-cases (is_empty host || is_empty port)) [
      | inl bad ↦ cc (rw bad at h)
      | inr named ↦ elim (Bool-cases (is_number (atoi port))) [
        | inr no_number ↦ cc (rw (named, no_number) at h)
        | inl number ↦
            let same : some (join_host_port host port) ≡ some t = rw (named, number) at h in
            (host, port, refl, ground (arith, named), cc, rw (named, number))
      ]
    ]

-- A target that `Normalize` has accepted is accepted again, and stays as it is.
pub normalize_target-stable :
    (t u : Bytes) → normalize_target t ≡ some u → normalize_target u ≡ some u
unfolding normalize_target
normalize_target-stable t u h =
    let (host, port, e, named, joined, accepted) = checked_target-accepts (split_host_port t) h in
    let s = split_host_port-IsSplit t host port e in
    rw (joined, split_host_port-join host port s named) accepted
