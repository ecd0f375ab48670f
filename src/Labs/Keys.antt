-- ===== src/Labs/Keys.antt =====
-- cmd/snmpsim-api/main.go: the ids that a resource manager makes, and the statuses behind a write.
use go_snmpsim.Prelude.{
  ℕ, suc, ◌^◌, ◌<◌, ◌≡◌, refl, sym, ap, ◌∙◌, Bool, true, false, ◌&&◌, Option, none, some, [], ◌∷◌,
  ◌++◌, Bytes, bytes_eq, bytes_eq_iff, text_eq, Map, lookup, put, erase, lookup-nil, lookup-put,
  lookup-erase, arith, Bool-cases, Option-cases, inl, inr, if◌then◌else◌, drop, length,
}
use go_snmpsim.Strconv.{print_int, atoi}
use go_snmpsim.Strconv.Decimal.{atoi-decimal}
use go_snmpsim.Labs.{Lab, Status, is_running, numbered, set_status}

drop-append_length : (s t : Bytes) → drop (length s) (s ++ t) ≡ t
drop-append_length [] t = refl
drop-append_length (c ∷ s) t = drop-append_length s t

numbered_suffix :
    (kind : Bytes) (n : ℕ) → n < 2 ^ 63 → atoi (drop (suc (length kind)) (numbered kind n)) ≡ some n
unfolding numbered print_int
numbered_suffix [] n h = ground (arith, atoi-decimal n h)
numbered_suffix (c ∷ kind) n h = numbered_suffix kind n h

-- Two ids of one kind with different numbers differ.
pub numbered_injective :
    (kind : Bytes) (m n : ℕ) → m < 2 ^ 63 → n < 2 ^ 63 → numbered kind m ≡ numbered kind n → m ≡ n
numbered_injective kind m n small_m small_n e =
    let a = numbered_suffix kind m small_m in
    let b = numbered_suffix kind n small_n in
    let same : some m ≡ some n = sym a ∙ ap (λ t. atoi (drop (suc (length kind)) t)) e ∙ b in cc

-- A value that is there.
abbrev pub is_there : {A : Type 0} → Option A → Bool
is_there none = false
is_there (some a) = true

-- A lab that is there and running.
abbrev pub runs : Option Lab → Bool
runs none = false
runs (some lab) = is_running lab.status

-- The lab with a new status.
abbrev pub restatus : Status → Option Lab → Option Lab
restatus status none = none
restatus status (some lab) = some (record lab { status = status })

pub runs-restatus :
    (status : Status) (o : Option Lab)
    → runs (restatus status o) ≡ (is_there o && is_running status)
runs-restatus status none = refl
runs-restatus status (some lab) = refl

pub lookup-set_status :
    (id j : Bytes) (status : Status) (labs : Map Bytes Lab)
    → lookup j (set_status id status labs)
      ≡ (if bytes_eq id j then restatus status (lookup id labs) else lookup j labs)
unfolding set_status
lookup-set_status id j status labs = elim (Option-cases (lookup id labs)) [
  | inl e ↦ elim (Bool-cases (bytes_eq id j)) [
    | inl same ↦
        let is : id ≡ j = (bytes_eq_iff id j).0 same in
        let absent : lookup j labs ≡ none = rw (← is) e in rw (set_status, e, same, absent)
    | inr other ↦ rw (set_status, e, other)
  ]
  | inr (lab, e) ↦ elim (Bool-cases (bytes_eq id j)) [
    | inl same ↦ rw (set_status, e, lookup-put, same)
    | inr other ↦ rw (set_status, e, lookup-put, other)
  ]
]

-- No key of a map stands twice.
abbrev pub IsMap : {A : Type 0} → Map Bytes A → Type 0
IsMap [] = Unit
IsMap ((k, a) ∷ m) = (lookup k m ≡ none) × IsMap m

lookup-put-none :
    {A : Type 0} (k j : Bytes) (a : A) (m : Map Bytes A)
    → bytes_eq k j ≡ false
    → lookup j m ≡ none
    → lookup j (put k a m) ≡ none
lookup-put-none k j a m e h = rw (lookup-put, e) h

lookup-erase-none :
    {A : Type 0} (k j : Bytes) (m : Map Bytes A) → lookup j m ≡ none → lookup j (erase k m) ≡ none
lookup-erase-none k j m h = elim (Bool-cases (bytes_eq k j)) [
  | inl e ↦ rw (lookup-erase, e) refl
  | inr e ↦ rw (lookup-erase, e) h
]

pub put-IsMap : {A : Type 0} (k : Bytes) (a : A) (m : Map Bytes A) → IsMap m → IsMap (put k a m)
unfolding put
put-IsMap k a [] h = (lookup-nil k, tt)
put-IsMap k a ((j, b) ∷ m) h = elim (Bool-cases (bytes_eq j k)) [
  | inl e ↦
      let same : j ≡ k = (bytes_eq_iff j k).0 e in
      let free : lookup k m ≡ none = rw (← same) h.0 in rw (put, e) (free, h.1)
  | inr e ↦
      let other : bytes_eq k j ≡ false = ground (arith, bytes_eq_iff k j, bytes_eq_iff j k) in
      rw (put, e) (lookup-put-none k j a m other h.0, put-IsMap k a m h.1)
]

pub erase-IsMap : {A : Type 0} (k : Bytes) (m : Map Bytes A) → IsMap m → IsMap (erase k m)
unfolding erase
erase-IsMap k [] h = tt
erase-IsMap k ((j, b) ∷ m) h = elim (Bool-cases (bytes_eq j k)) [
  | inl e ↦ rw (erase, e) (erase-IsMap k m h.1)
  | inr e ↦ rw (erase, e) (lookup-erase-none k j m h.0, erase-IsMap k m h.1)
]
