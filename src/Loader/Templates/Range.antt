-- ===== src/Loader/Templates/Range.antt =====
-- internal/store/template.go: the OIDs that the template of a range stands for.
use go_snmpsim.Prelude.{
  ℕ, zero, suc, ◌+◌, ◌-◌, ◌%◌, ◌^◌, ◌≤◌, ◌<◌, ◌≡◌, ap, true, false, some, List, [], ◌∷◌, map, arith,
}
use go_snmpsim.Oid.{int_less}
use go_snmpsim.Loader.Templates.{
  OidTemplate, template_range, instance_of, range_loop, rounds, expand_single_template,
}

-- `n` numbers from `i` on.
abbrev pub numbers_from : ℕ → ℕ → List ℕ
numbers_from i zero = []
numbers_from i (suc n) = i ∷ numbers_from (i + 1) n

range_loop-numbers :
    (tmpl : OidTemplate) (n fuel i last : ℕ)
    → i + n ≡ last + 1
    → n < fuel
    → last + 1 < 2 ^ 63
    → range_loop tmpl fuel i last 1 ≡ map (instance_of tmpl) (numbers_from i n)
unfolding range_loop
range_loop-numbers tmpl n zero i last h fuel_left small = absurd (omega arith)
range_loop-numbers tmpl zero (suc fuel) i last h fuel_left small =
    let done : int_less last i ≡ true = ground arith in rw done
range_loop-numbers tmpl (suc n) (suc fuel) i last h fuel_left small =
    let more : int_less last i ≡ false = ground arith in
    let step : (i + 1) % 2 ^ 64 ≡ i + 1 = omega arith in
    rw (more, step)
      (ap (λ rest. instance_of tmpl i ∷ rest)
        (range_loop-numbers tmpl n fuel (i + 1) last (omega arith) (omega arith) small))

-- The template of a range `#start-last` whose bounds are in order, and whose last index is below the
-- greatest int, stands for one OID for each index from `start` to `last`, in order, whatever indices
-- are known.
pub expand_single_template-range :
    (tmpl : OidTemplate) (start last : ℕ) (known_indices : List ℕ)
    → tmpl.pattern ≡ some (template_range start last 1)
    → start ≤ last
    → last + 1 < 2 ^ 63
    → expand_single_template tmpl known_indices
      ≡ map (instance_of tmpl) (numbers_from start (last + 1 - start))
unfolding expand_single_template
expand_single_template-range tmpl start last known_indices e h small = rw e (
    range_loop-numbers tmpl (last + 1 - start) (rounds start last) start last (omega arith)
      (omega arith) small)
