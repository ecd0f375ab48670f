-- ===== src/Strconv/Substrings.antt =====
-- What the source uses of `strings` to look for a text in another one, and to take a text apart.
use go_snmpsim.Prelude.{
  ℕ, zero, suc, ◌-◌, Bool, ◌||◌, Option, none, some, List, [], ◌∷◌, ◌++◌, Bytes, is_empty, is_space,
  has_prefix, length, drop, if◌then◌else◌,
}

-- `strings.Contains(s, sub)`
unfoldable pub contains : Bytes → Bytes → Bool
contains [] sub = is_empty sub
contains (c ∷ s) sub = let rest = contains s sub in has_prefix (c ∷ s) sub || rest

-- Occurrences of `sub` that do not overlap; the next `skip` bytes belong to the last one.
count_from : Bytes → ℕ → Bytes → ℕ
count_from sub skip [] = 0
count_from sub (suc skip) (c ∷ s) = count_from sub skip s
count_from sub zero (c ∷ s) =
    let here = suc (count_from sub (length sub - 1) s) in
    let later = count_from sub zero s in if has_prefix (c ∷ s) sub then here else later

-- `strings.Count(s, sub)`, for a text `sub` that is not empty.
unfoldable pub count : Bytes → Bytes → ℕ
unfolding count_from
count s sub = count_from sub 0 s

abbrev with_byte : ℕ → Option (Bytes × Bytes) → Option (Bytes × Bytes)
with_byte c none = none
with_byte c (some (before, behind)) = some (c ∷ before, behind)

-- The texts before and behind the first `sep`: the two parts of `strings.SplitN(s, sep, 2)`, or
-- `none`, if that has one part only.
unfoldable pub cut_at : Bytes → Bytes → Option (Bytes × Bytes)
cut_at sep [] = none
cut_at sep (c ∷ s) =
    let rest = with_byte c (cut_at sep s) in
    if has_prefix (c ∷ s) sep then some ([], drop (length sep) (c ∷ s)) else rest

-- The words of a text, of which the first has `word` in front.
fields_from : Bytes → Bytes → List Bytes
fields_from word [] = if is_empty word then [] else word ∷ []
fields_from word (c ∷ s) =
    let next = fields_from [] s in
    let more = fields_from (word ++ c ∷ []) s in
    if is_space c then (if is_empty word then next else word ∷ next) else more

-- `strings.Fields(s)`, for ASCII texts.
unfoldable pub fields : Bytes → List Bytes
unfolding fields_from
fields s = fields_from [] s

-- `strings.TrimPrefix(s, p)`
unfoldable pub trim_prefix : Bytes → Bytes → Bytes
trim_prefix s p = if has_prefix s p then drop (length p) s else s
