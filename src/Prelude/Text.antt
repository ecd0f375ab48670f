-- ===== src/Prelude/Text.antt =====
-- Go strings as lists of bytes, and the functions of `strings` that the source calls.
use Prim.Native.Nat.{ℕ, ◌+◌, ◌-◌}
use Prim.Native.Char.{code}
use Prim.Native.String.{String}
use mathlib.Core.Path.{◌≡◌, refl}
use mathlib.Core.Logic.{◌↔◌}
use mathlib.Core.Bool.{Bool, true, false, ◌&&◌, ◌||◌}
use mathlib.Core.List.{List, [], ◌∷◌, ◌++◌, reverse, reverse-append, reverse-reverse}
use native.Mathlib.Omega.{arith}
use go_snmpsim.Prelude.Tests.{◌==◌, leb, if◌then◌else◌}

abbrev pub Bytes : Type 0
Bytes = List ℕ

-- The code points of a literal: its bytes, where it is ASCII.
abbrev pub codes : String → Bytes
codes String.[] = []
codes (String.◌∷◌ c s) = code c ∷ codes s

-- The `==` of strings.
abbrev pub bytes_eq : Bytes → Bytes → Bool
bytes_eq [] [] = true
bytes_eq [] (d ∷ t) = false
bytes_eq (c ∷ s) [] = false
bytes_eq (c ∷ s) (d ∷ t) = (c == d) && bytes_eq s t

-- A text is one of the labels of a `case`.
abbrev pub is_label : Bytes → List String → Bool
is_label s [] = false
is_label s (l ∷ ls) = bytes_eq s (codes l) || is_label s ls

pub bytes_eq_refl : (s : Bytes) → bytes_eq s s ≡ true
bytes_eq_refl [] = refl
bytes_eq_refl (c ∷ s) = ground (arith, bytes_eq_refl s)

pub bytes_eq_sound : (s t : Bytes) → bytes_eq s t ≡ true → s ≡ t
bytes_eq_sound [] [] h = refl
bytes_eq_sound [] (d ∷ t) h = cc
bytes_eq_sound (c ∷ s) [] h = cc
bytes_eq_sound (c ∷ s) (d ∷ t) h = ground (arith, bytes_eq_sound s t)

pub bytes_eq_iff : (s t : Bytes) → (bytes_eq s t ≡ true) ↔ (s ≡ t)
bytes_eq_iff s t = (bytes_eq_sound s t, λ e. rw e (bytes_eq_refl t))

-- `s == ""`
abbrev pub is_empty : Bytes → Bool
is_empty [] = true
is_empty (c ∷ s) = false

-- `strings.HasPrefix(s, p)`
abbrev pub has_prefix : Bytes → Bytes → Bool
has_prefix s [] = true
has_prefix [] (d ∷ p) = false
has_prefix (c ∷ s) (d ∷ p) = (c == d) && has_prefix s p

-- The ASCII white space of `strings.TrimSpace`.
abbrev pub is_space : ℕ → Bool
is_space c = c == 32 || (leb 9 c && leb c 13)

abbrev pub trim_left : Bytes → Bytes
trim_left [] = []
trim_left (c ∷ s) = if is_space c then trim_left s else c ∷ s

-- `strings.TrimSpace(s)`, for ASCII texts.
unfoldable pub trim_space : Bytes → Bytes
trim_space s = reverse (trim_left (reverse (trim_left s)))

-- `strings.ToLower(s)`, for ASCII texts.
unfoldable pub to_lower : Bytes → Bytes
to_lower [] = []
to_lower (c ∷ s) = (if leb b'A' c && leb c b'Z' then c + 32 else c) ∷ to_lower s

-- `strings.ToUpper(s)`, for ASCII texts.
unfoldable pub to_upper : Bytes → Bytes
to_upper [] = []
to_upper (c ∷ s) = (if leb b'a' c && leb c b'z' then c - 32 else c) ∷ to_upper s

-- No byte of the text satisfies the test.
abbrev pub Lacks : (ℕ → Bool) → Bytes → Type 0
Lacks p [] = Unit
Lacks p (c ∷ s) = (p c ≡ false) × Lacks p s

pub Lacks-append : (p : ℕ → Bool) (s t : Bytes) → Lacks p s → Lacks p t → Lacks p (s ++ t)
Lacks-append p [] t h k = k
Lacks-append p (c ∷ s) t h k = (h.0, Lacks-append p s t h.1 k)

Lacks-reverse : (p : ℕ → Bool) (s : Bytes) → Lacks p s → Lacks p (reverse s)
Lacks-reverse p [] h = tt
Lacks-reverse p (c ∷ s) h =
    rw (reverse-append (c ∷ []) s)
      (Lacks-append p (reverse s) (c ∷ []) (Lacks-reverse p s h.1) (h.0, tt))

trim_left-no_space : (s : Bytes) → Lacks is_space s → trim_left s ≡ s
trim_left-no_space [] h = refl
trim_left-no_space (c ∷ s) h = rw h.0

-- A text without white space is left as it is.
pub trim_space-no_space : (s : Bytes) → Lacks is_space s → trim_space s ≡ s
unfolding trim_space
trim_space-no_space s h =
    rw (trim_left-no_space s h, trim_left-no_space (reverse s) (Lacks-reverse is_space s h))
      (reverse-reverse s)
