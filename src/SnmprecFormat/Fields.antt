-- ===== src/SnmprecFormat/Fields.antt =====
-- internal/snmprecfmt/snmprecfmt.go: a written line, and what `CollectTemplates` of
-- internal/store/template.go makes of it.
use go_snmpsim.Prelude.{
  ℕ, suc, ◌≡◌, refl, ◌∙◌, Bool, false, ◌||◌, ap, some, [], ◌∷◌, ◌++◌, Bytes, codes, is_empty,
  is_space, Lacks, Lacks-append, trim_space, trim_space-no_space, ◌==◌, arith,
}
use go_snmpsim.Strconv.{split_n, contains_byte}
use go_snmpsim.Strconv.Cuts.{cut-append}
use go_snmpsim.Strconv.Scan.{split}
use go_snmpsim.Strconv.Substrings.{contains}
use go_snmpsim.Loader.{get_snmp_type, parse_template_value, is_skipped}
use go_snmpsim.Loader.Templates.{
  is_template_oid, collect_loop, collect_templates, plain_template, entry_of_parts, append_to,
}

-- White space, and what marks a comment or a template or ends a field.
abbrev pub is_mark : ℕ → Bool
is_mark c = is_space c || (c == b'|' || c == b'#')

-- A field with no such byte.
abbrev pub IsField : Bytes → Type 0
IsField s = Lacks is_mark s

Lacks-of_IsField :
    (p : ℕ → Bool)
    → ((c : ℕ) → is_mark c ≡ false → p c ≡ false)
    → (s : Bytes) → IsField s
    → Lacks p s
Lacks-of_IsField p f [] h = tt
Lacks-of_IsField p f (c ∷ s) h = (f c h.0, Lacks-of_IsField p f s h.1)

abbrev pub line_with : Bytes → Bytes → Bytes → Bytes
line_with a b c = a ++ b'|' ∷ (b ++ b'|' ∷ c)

split_n-cut :
    (n : ℕ) (s rest : Bytes)
    → IsField s
    → split_n (suc (suc n)) b'|' (s ++ b'|' ∷ rest) ≡ s ∷ split_n (suc n) b'|' rest
unfolding split_n
split_n-cut n s rest h =
    let e = cut-append b'|' s rest (Lacks-of_IsField (λ c. c == b'|') (λ c h. ground arith) s h) in
    rw (split_n, e, e) refl

split-lacking : (s : Bytes) → Lacks (λ c. c == 10) s → split 10 (s ++ 10 ∷ []) ≡ s ∷ [] ∷ []
unfolding split
split-lacking [] h = refl
split-lacking (c ∷ s) h = rw (h.0, split-lacking s h.1) refl

module _ (a b c : Bytes) (fa : IsField a) (fb : IsField b) (fc : IsField c) where
  -- A test that only the bytes of a mark satisfy, and not the bar.
  line-Lacks :
      (p : ℕ → Bool)
      → ((c : ℕ) → is_mark c ≡ false → p c ≡ false)
      → p b'|' ≡ false
      → Lacks p (line_with a b c)
  line-Lacks p f bar =
      Lacks-append p a _ (Lacks-of_IsField p f a fa)
        (bar, Lacks-append p b _ (Lacks-of_IsField p f b fb) (bar, Lacks-of_IsField p f c fc))

  split-line : split_n 3 b'|' (line_with a b c) ≡ a ∷ b ∷ c ∷ []
  split-line =
      split_n-cut 1 a (b ++ b'|' ∷ c) fa
      ∙ ap (λ parts. a ∷ parts)
          (split_n-cut 0 b c fb ∙ ap (λ parts. b ∷ parts) (unfold split_n in refl))

  trimmed : trim_space (line_with a b c) ≡ line_with a b c
  trimmed = trim_space-no_space (line_with a b c) (line-Lacks is_space (λ c h. ground arith) refl)

contains_byte-none : (sep : ℕ) (s : Bytes) → Lacks (λ c. c == sep) s → contains_byte sep s ≡ false
unfolding contains_byte
contains_byte-none sep [] h = refl
contains_byte-none sep (c ∷ s) h = rw (h.0, contains_byte-none sep s h.1) refl

contains-none : (s : Bytes) → Lacks (λ c. c == b'#') s → contains s (codes "|#") ≡ false
unfolding contains
contains-none [] h = refl
contains-none (c ∷ []) h = ground arith
contains-none (c ∷ d ∷ s) h = ground (arith, h.1.0, contains-none (d ∷ s) h.1)

is_template_oid-none : (s : Bytes) → Lacks (λ c. c == b'#') s → is_template_oid s ≡ false
unfolding is_template_oid
is_template_oid-none s h = ground (arith, contains-none s h, contains_byte-none b'#' s h)

is_skipped-none : (c : ℕ) (s : Bytes) → Lacks (λ c. c == b'#') (c ∷ s) → is_skipped (c ∷ s) ≡ false
is_skipped-none c s h = ground (arith, h.0)

collect_loop-one :
    (line : Bytes)
    → trim_space line ≡ line
    → is_skipped line ≡ false
    → is_template_oid line ≡ false
    → collect_loop (line ∷ [] ∷ []) [] []
      ≡ ([], append_to [] (entry_of_parts (split_n 3 b'|' line)))
unfolding collect_loop
collect_loop-one line trim skip template = rw (trim, skip, template) refl

entry_of_parts-trim :
    (a b c : Bytes)
    → entry_of_parts (a ∷ b ∷ c ∷ [])
      ≡ some (record {
        oid = trim_space a;
        type = get_snmp_type (trim_space b);
        value = parse_template_value (trim_space b) (trim_space c);
      })
unfolding entry_of_parts plain_template
entry_of_parts-trim a b c = refl

entry_of_parts-fields :
    (a b c : Bytes)
    → IsField a
    → IsField b
    → IsField c
    → entry_of_parts (a ∷ b ∷ c ∷ [])
      ≡ some (record { oid = a; type = get_snmp_type b; value = parse_template_value b c })
entry_of_parts-fields a b c fa fb fc =
    let trim = λ (s : Bytes) (f : IsField s).
      trim_space-no_space s (Lacks-of_IsField is_space (λ c h. ground arith) s f) in
    entry_of_parts-trim a b c ∙ rw (trim a fa, trim b fb, trim c fc) refl

-- A file of one line of three fields, of which the first is not empty, has one entry and no template.
pub collect_templates-line :
    (a b c : Bytes)
    → IsField a
    → IsField b
    → IsField c
    → is_empty a ≡ false
    → collect_templates (split 10 (line_with a b c ++ 10 ∷ []))
      ≡ ([], (record { oid = a; type = get_snmp_type b; value = parse_template_value b c }) ∷ [])
unfolding collect_templates
collect_templates-line [] b c fa fb fc e = cc
collect_templates-line (x ∷ a) b c fa fb fc e =
    let line = line_with (x ∷ a) b c in
    let no_hash = line-Lacks (x ∷ a) b c fa fb fc (λ c. c == b'#') (λ c h. ground arith) refl in
    let no_end = line-Lacks (x ∷ a) b c fa fb fc (λ c. c == 10) (λ c h. ground arith) refl in
    ap (λ lines. collect_loop lines [] []) (split-lacking line no_end)
    ∙ collect_loop-one line (trimmed (x ∷ a) b c fa fb fc)
        (is_skipped-none x (a ++ b'|' ∷ (b ++ b'|' ∷ c)) no_hash)
        (is_template_oid-none line no_hash)
    ∙ ap (λ parts. ([], append_to [] (entry_of_parts parts))) (split-line (x ∷ a) b c fa fb fc)
    ∙ ap (λ entry. ([], append_to [] entry)) (entry_of_parts-fields (x ∷ a) b c fa fb fc)
