-- ===== src/Oid/Tests.antt =====
-- The comparison of OIDs at concrete texts.
use go_snmpsim.Prelude.{suc, ◌≡◌, refl, none, some, true, false, [], ◌∷◌, codes, length, arith}
use go_snmpsim.Oid.{less_loop, is_oid_less}
use go_snmpsim.Oid.Components.{components, lex_less}
use go_snmpsim.Oid.Compare.{is_oid_less-lex_less, less_loop_diverges}
use go_snmpsim.Oid.Render.{
  render, decimal, render_tail, render-IsCanonical, IsCanonical, components-render,
}

two_numbers : IsCanonical (render (1 ∷ 9 ∷ []))
two_numbers = render-IsCanonical (1 ∷ 9 ∷ []) (omega arith, (omega arith, tt))

three_numbers : IsCanonical (render (1 ∷ 10 ∷ 2 ∷ []))
three_numbers = render-IsCanonical (1 ∷ 10 ∷ 2 ∷ []) (omega arith, (omega arith, (omega arith, tt)))

not_before_itself : is_oid_less (render (1 ∷ 9 ∷ [])) (render (1 ∷ 9 ∷ [])) ≡ false
unfolding is_oid_less render decimal render_tail
not_before_itself = refl

numeric_order : is_oid_less (codes "1.3.9") (codes "1.3.10.1") ≡ true
unfolding is_oid_less
numeric_order = refl

prefix_first : is_oid_less (codes "1.3") (codes ".1.3.0") ≡ true
unfolding is_oid_less
prefix_first = refl

-- 2 ^ 63 is negative as an int64.
overflow : is_oid_less (codes "1.9223372036854775808") (codes "1.1") ≡ true
unfolding is_oid_less
overflow = refl

is_oid_less-lex_less_example :
    let s = render (1 ∷ 9 ∷ []) in
    let t = render (1 ∷ 10 ∷ 2 ∷ []) in
    (less_loop (suc (length s)) s t ≡ some (lex_less (components s) (components t)))
    × (is_oid_less s t ≡ lex_less (components s) (components t))
is_oid_less-lex_less_example = is_oid_less-lex_less _ _ two_numbers.oid three_numbers.oid

less_loop_diverges_example : less_loop 40 (codes "x.1") (codes "-2") ≡ none
less_loop_diverges_example =
    less_loop_diverges 40 (codes "x.1") (codes "-2") (refl, λ e. omega arith)
      (refl, λ e. omega arith)

components-render_example : components (render (1 ∷ 10 ∷ 2 ∷ [])) ≡ 1 ∷ 10 ∷ 2 ∷ []
components-render_example = components-render (1 ∷ 10 ∷ 2 ∷ [])
