-- ===== src/Loader/Templates.antt =====
-- internal/store/template.go: lines of a record file that stand for a range of OIDs. An error is
-- `none`. An `int` is its bit pattern. Sorting the detected indices is quicksort's.
pub mod Range
use mathlib.Core.List.{foldl, map}
use go_snmpsim.Prelude.{
  ℕ, zero, suc, ◌+◌, ◌-◌, ◌%◌, ◌^◌, Bool, true, false, not, ◌&&◌, ◌||◌, Option, none, some, List,
  [], ◌∷◌, ◌++◌, Bytes, codes, has_prefix, trim_space, Map, nat_eq, put, length, get_or, ltb, leb,
  if◌then◌else◌,
}
use go_snmpsim.Oid.{int_less}
use go_snmpsim.Sort.{quick_sort_all}
use go_snmpsim.Snmp.{Asn1Ber, Value, OidEntry}
use go_snmpsim.Strconv.{atoi, print_int, split_n, contains_byte}
use go_snmpsim.Strconv.Scan.{split}
use go_snmpsim.Strconv.Substrings.{contains, count}
use go_snmpsim.Loader.{get_snmp_type, parse_template_value, is_skipped}

-- The type of a template, with the fields of the pattern that its expansion reads.
pub data TemplatePattern : Type 0 where
  template_range : ℕ → ℕ → ℕ → TemplatePattern
  template_expression : ℕ → Bytes → TemplatePattern
  template_auto_detect : TemplatePattern

-- `IsTemplate` is true where there is a pattern.
pub record OidTemplate : Type 0 where
  pub oid : Bytes
  pub type : Asn1Ber
  pub value : Value
  pub pattern : Option TemplatePattern

abbrev range_of : Option ℕ → Option ℕ → Option TemplatePattern
range_of none last = none
range_of (some start) none = none
range_of (some start) (some last) =
    if int_less last start then none else some (template_range start last 1)

abbrev expression_of : Option ℕ → Bytes → Option TemplatePattern
expression_of none expression = none
expression_of (some start) expression = some (template_expression start expression)

pattern_of_parts : Bool → List Bytes → Option TemplatePattern
unfolding atoi trim_space
pattern_of_parts expression (p0 ∷ p1 ∷ []) =
    if expression
    then expression_of (atoi (trim_space p0)) (trim_space p1)
    else range_of (atoi (trim_space p0)) (atoi (trim_space p1))
pattern_of_parts expression parts = none

unfoldable pub parse_template_pattern : Bytes → Option TemplatePattern
unfolding pattern_of_parts contains_byte split_n
parse_template_pattern [] = none
parse_template_pattern (c ∷ spec) =
    if has_prefix (c ∷ spec) (codes "#")
    then pattern_of_parts (contains_byte b'$' spec) (split_n 2 b'-' spec)
    else none

abbrev with_pattern : OidTemplate → Option TemplatePattern → Option OidTemplate
with_pattern template none = none
with_pattern template (some pattern') = some (record template { pattern = some pattern' })

-- The template of a line's first three fields.
unfoldable pub plain_template : Bytes → Bytes → Bytes → OidTemplate
unfolding get_snmp_type parse_template_value trim_space
plain_template p0 p1 p2 = record {
  oid = trim_space p0;
  type = get_snmp_type (trim_space p1);
  value = parse_template_value (trim_space p1) (trim_space p2);
  pattern = none;
}

template_of_parts : List Bytes → Option OidTemplate
unfolding plain_template parse_template_pattern
template_of_parts (p0 ∷ p1 ∷ p2 ∷ []) = some (plain_template p0 p1 p2)
template_of_parts (p0 ∷ p1 ∷ p2 ∷ p3 ∷ []) =
    with_pattern (plain_template p0 p1 p2) (parse_template_pattern (trim_space p3))
template_of_parts parts = none

-- `ParseTemplateOID`
unfoldable pub parse_template_oid : Bytes → Option OidTemplate
unfolding template_of_parts split_n
parse_template_oid line = template_of_parts (split_n 4 b'|' line)

-- `fmt.Sprintf("%s.%d", tmpl.OID, i)`, with the template's type and value.
unfoldable pub instance_of : OidTemplate → ℕ → OidEntry
unfolding print_int
instance_of tmpl i = record {
  oid = tmpl.oid ++ b'.' ∷ print_int i;
  type = tmpl.type;
  value = tmpl.value;
}

-- `for i := start; i <= last; i += step`, with fuel.
pub range_loop : OidTemplate → ℕ → ℕ → ℕ → ℕ → List OidEntry
unfolding instance_of
range_loop tmpl zero i last step = []
range_loop tmpl (suc fuel) i last step =
    let rest = range_loop tmpl fuel ((i + step) % 2 ^ 64) last step in
    if int_less last i then [] else instance_of tmpl i ∷ rest

-- The rounds from `i` to `last` in steps of one, and the test that ends the loop.
abbrev pub rounds : ℕ → ℕ → ℕ
rounds i last = (last + 2 ^ 64 - i) % 2 ^ 64 + 2

instances_from : OidTemplate → ℕ → List ℕ → List OidEntry
unfolding instance_of
instances_from tmpl start [] = []
instances_from tmpl start (idx ∷ indices) =
    let rest = instances_from tmpl start indices in
    if int_less idx start then rest else instance_of tmpl idx ∷ rest

expand_pattern : OidTemplate → List ℕ → Option TemplatePattern → List OidEntry
unfolding range_loop instances_from instance_of
expand_pattern tmpl known_indices none = []
expand_pattern tmpl known_indices (some (template_range start last step)) =
    range_loop tmpl (rounds start last) start last step
expand_pattern tmpl known_indices (some (template_expression start expression)) =
    instances_from tmpl start known_indices
expand_pattern tmpl known_indices (some template_auto_detect) = map (instance_of tmpl) known_indices

-- `expandSingleTemplate`; a template without a pattern is passed over by `ExpandTemplates`.
unfoldable pub expand_single_template : OidTemplate → List ℕ → List OidEntry
unfolding expand_pattern
expand_single_template tmpl known_indices = expand_pattern tmpl known_indices tmpl.pattern

unfoldable pub expand_templates : List OidTemplate → List ℕ → List OidEntry
unfolding expand_single_template
expand_templates [] known_indices = []
expand_templates (tmpl ∷ templates) known_indices =
    expand_single_template tmpl known_indices ++ expand_templates templates known_indices

-- `indicesMap[idx] = true`, for an OID whose last part is a number.
note_index : Map ℕ Bool → OidEntry → Map ℕ Bool
unfolding split atoi
note_index indices entry =
    let parts = split b'.' entry.oid in
    elim (atoi (get_or parts (length parts - 1) [])) [
      | none ↦ indices
      | some idx ↦ put idx true indices
    ]

unfoldable pub detect_indices_from_oids : List OidEntry → List ℕ
unfolding note_index
detect_indices_from_oids entries =
    quick_sort_all 0 int_less (map (λ e. e.0) (foldl note_index [] entries))

unfoldable pub is_template_oid : Bytes → Bool
unfolding contains count contains_byte
is_template_oid line =
    contains line (codes "|#") || (leb 3 (count line (codes "|")) && contains_byte b'#' line)

-- A line that is no template, if it has three fields.
unfoldable pub entry_of_parts : List Bytes → Option OidEntry
unfolding plain_template
entry_of_parts (p0 ∷ p1 ∷ p2 ∷ []) =
    let entry = plain_template p0 p1 p2 in
    some (record { oid = entry.oid; type = entry.type; value = entry.value })
entry_of_parts parts = none

abbrev pub append_to {ℓ} : {A : Type ℓ} → List A → Option A → List A
append_to xs none = xs
append_to xs (some x) = xs ++ x ∷ []

-- The loop of `CollectTemplates`, which has no errors: a bad line is passed over.
unfoldable pub collect_loop :
    List Bytes → List OidTemplate → List OidEntry → List OidTemplate × List OidEntry
unfolding is_template_oid parse_template_oid entry_of_parts split_n trim_space
collect_loop [] templates regular_entries = (templates, regular_entries)
collect_loop (l ∷ lines) templates regular_entries =
    let line = trim_space l in
    let skip = collect_loop lines templates regular_entries in
    let template =
      collect_loop lines (append_to templates (parse_template_oid line)) regular_entries in
    let regular =
      collect_loop lines templates
        (append_to regular_entries (entry_of_parts (split_n 3 b'|' line))) in
    if is_skipped line then skip else if is_template_oid line then template else regular

unfoldable pub collect_templates : List Bytes → List OidTemplate × List OidEntry
unfolding collect_loop
collect_templates lines = collect_loop lines [] []
