-- ===== src/Security/Keys/Stretched.antt =====
-- internal/v3/crypto.go: the bytes of a passphrase that is repeated.
use go_snmpsim.Prelude.{
  ℕ, zero, suc, ◌+◌, ◌-◌, ◌*◌, ◌%◌, ◌≤◌, ◌<◌, ◌≡◌, refl, sym, ap, ◌∙◌, false, [], ◌∷◌, ◌++◌, Bytes,
  is_empty, length, length-append, get_or, take, leb, ltb, ltb→lt, arith, Bool-cases, inl, inr,
}
use go_snmpsim.Security.Keys.{normalize_loop, normalize_key, extend_loop, extend}

-- The first `n` bytes of a text repeated without end.
pub record Repeats (passphrase : Bytes) (n : ℕ) (out : Bytes) : Type 0 where
  pub sized : length out ≡ n
  pub bytes : (i : ℕ) → i < n → get_or out i 0 ≡ get_or passphrase (i % length passphrase) 0

nonempty_length : (s : Bytes) → is_empty s ≡ false → 0 < length s
nonempty_length [] h = cc
nonempty_length (c ∷ s) h = omega arith

normalize_loop-bytes :
    (key : Bytes) (i left j : ℕ)
    → j < left
    → get_or (normalize_loop key i left) j 0 ≡ get_or key ((i + j) % length key) 0
unfolding normalize_loop
normalize_loop-bytes key i zero j h = absurd (omega arith)
normalize_loop-bytes key i (suc left) zero h = let e : i + 0 ≡ i = omega arith in rw e
normalize_loop-bytes key i (suc left) (suc j) h =
    let e : i + 1 + j ≡ i + suc j = omega arith in
    normalize_loop-bytes key (i + 1) left j (omega arith)
    ∙ ap (λ k. get_or key (k % length key) 0) e

normalize_loop-length : (key : Bytes) (i left : ℕ) → length (normalize_loop key i left) ≡ left
unfolding normalize_loop
normalize_loop-length key i zero = refl
normalize_loop-length key i (suc left) = ap suc (normalize_loop-length key (i + 1) left)

normalize_key-Repeats :
    (key : Bytes) (n : ℕ) → is_empty key ≡ false → Repeats key n (normalize_key key n)
unfolding normalize_key
normalize_key-Repeats key n h = rw h (record {
  sized = normalize_loop-length key 0 n;
  bytes = λ i lt. let e : 0 + i ≡ i = omega arith in rw e at (normalize_loop-bytes key 0 n i lt);
})

get_or-append_left : (s t : Bytes) (i : ℕ) → i < length s → get_or (s ++ t) i 0 ≡ get_or s i 0
get_or-append_left [] t i h = absurd (omega arith)
get_or-append_left (c ∷ s) t zero h = refl
get_or-append_left (c ∷ s) t (suc i) h = get_or-append_left s t i (omega arith)

get_or-append_right : (s t : Bytes) (i : ℕ) → get_or (s ++ t) (length s + i) 0 ≡ get_or t i 0
get_or-append_right [] t i = let e : 0 + i ≡ i = omega arith in rw e
get_or-append_right (c ∷ s) t i =
    let e : suc (length s) + i ≡ suc (length s + i) = omega arith in
    rw e (get_or-append_right s t i)

get_or-take : (n : ℕ) (s : Bytes) (i : ℕ) → i < n → get_or (take n s) i 0 ≡ get_or s i 0
get_or-take zero s i h = absurd (omega arith)
get_or-take (suc n) [] i h = refl
get_or-take (suc n) (c ∷ s) zero h = refl
get_or-take (suc n) (c ∷ s) (suc i) h = get_or-take n s i (omega arith)

length-take : (n : ℕ) (s : Bytes) → n ≤ length s → length (take n s) ≡ n
length-take zero s h = refl
length-take (suc n) [] h = absurd (omega arith)
length-take (suc n) (c ∷ s) h = ap suc (length-take n s (omega arith))

mod_step : (k size j : ℕ) → j < size → (k * size + j) % size ≡ j
mod_step k size j h = grind arith

module _ (passphrase : Bytes) (h : is_empty passphrase ≡ false) where
  abbrev size : ℕ
  size = length passphrase

  -- A text of whole passphrases stays a repetition when a part of the passphrase follows.
  Repeats-append :
      (k n : ℕ) (out part : Bytes)
      → Repeats passphrase (k * size) out
      → length part ≡ n
      → n ≤ size
      → ((i : ℕ) → i < n → get_or part i 0 ≡ get_or passphrase i 0)
      → Repeats passphrase (k * size + n) (out ++ part)
  Repeats-append k n out part r sized small bytes = record {
    sized = omega (arith, length-append out part, r.sized, sized);
    bytes = λ i lt. elim (Bool-cases (ltb i (k * size))) [
      | inl inside ↦
          get_or-append_left out part i (omega (arith, r.sized, ltb→lt _ _ inside))
          ∙ r.bytes i (ltb→lt _ _ inside)
      | inr behind ↦
          let j = i - k * size in
          let whole : i ≡ length out + j = ground (arith, r.sized) in
          let index : i ≡ k * size + j = ground arith in
          let short : j < n = ground arith in
          let place : i % size ≡ j =
            ap (λ x. x % size) index ∙ mod_step k size j (omega (arith, short, small)) in
          ap (λ x. get_or (out ++ part) x 0) whole
          ∙ get_or-append_right out part j
          ∙ bytes j short
          ∙ ap (λ x. get_or passphrase x 0) (sym place)
    ];
  }

  extend_loop-done :
      (fuel total : ℕ) (out : Bytes)
      → total ≤ length out
      → extend_loop fuel total passphrase out ≡ out
  unfolding extend_loop
  extend_loop-done zero total out e = refl
  extend_loop-done (suc fuel) total out e =
      let full : ltb (length out) total ≡ false = ground arith in rw full

  extend_loop-Repeats :
      (fuel total k : ℕ) (out : Bytes)
      → Repeats passphrase (k * size) out
      → k * size ≤ total
      → total < fuel + k * size
      → Repeats passphrase total (extend_loop fuel total passphrase out)
  unfolding extend_loop
  extend_loop-Repeats zero total k out r small enough = absurd (omega arith)
  extend_loop-Repeats (suc fuel) total k out r small enough =
      let remaining = total - length out in
      let some_byte = nonempty_length passphrase h in
      let next : k * size + size ≡ suc k * size = grind arith in
      elim (Bool-cases (ltb (length out) total)) [
        | inr full ↦ let same : k * size ≡ total = ground (arith, r.sized) in rw full (rw same at r)
        | inl more ↦ elim (Bool-cases (leb size remaining)) [
          | inl whole ↦
              let fits : suc k * size ≤ total = ground (arith, r.sized, next) in
              let grown =
                Repeats-append k size out passphrase r refl (omega arith) (λ i lt. refl) in
              rw (more, whole)
                (extend_loop-Repeats fuel total (suc k) (out ++ passphrase) (rw next at grown) fits
                  (omega (arith, next, some_byte)))
          | inr partly ↦
              let short : remaining < size = ground arith in
              let part = take remaining passphrase in
              let last : k * size + remaining ≡ total = ground (arith, r.sized) in
              let sized = length-take remaining passphrase (omega (arith, short)) in
              let grown =
                Repeats-append k remaining out part r sized (omega (arith, short))
                  (λ i lt. get_or-take remaining passphrase i lt) in
              let result : Repeats passphrase total (out ++ part) = rw last at grown in
              let filled : extend_loop fuel total passphrase (out ++ part) ≡ out ++ part =
                extend_loop-done fuel total (out ++ part) (omega (arith, result.sized)) in
              rw (more, partly, filled) result
        ]
      ]

  -- The text that `LocalizeKey` hashes first has the length that was asked for, and byte `i` of it is
  -- byte `i` of the passphrase, counted modulo the length of the passphrase, if that is not empty. The
  -- same holds of a key that `normalizeKey` brings to a length.
  pub extend-Repeats :
      (total : ℕ)
      → Repeats passphrase total (extend total passphrase)
        × Repeats passphrase total (normalize_key passphrase total)
  unfolding extend
  extend-Repeats total = (
    extend_loop-Repeats (total + 1) total 0 []
        (record { sized = omega arith; bytes = λ i lt. absurd (omega arith) }) (omega arith)
        (omega arith),
    normalize_key-Repeats passphrase total h,
  )
