-- ===== src/Routing/Select.antt =====
-- internal/routing/routing.go: what a router selects.
use go_snmpsim.Prelude.{
  ◌≡◌, refl, sym, ap, ◌∙◌, not, ◌&&◌, Bool-cases, Bool, true, false, Option, none, some, List, [],
  ◌∷◌, Bytes, is_empty, bytes_eq_iff, trim_space, arith, ◌⊎◌, ◌↔◌, if◌then◌else◌, inl, inr,
}
use go_snmpsim.Sort.Stable.{find_first, sort_stable_desc, best, find_first-sort_stable}
use go_snmpsim.Routing.{
  Matchers, Rule, RequestKey, Router, differs, rule_matches, priority, validate, new_router, select,
}

-- A field of a rule constrains a request only if it is given.
abbrev pub Constrains : Bytes → Bytes → Type 0
Constrains m key = (m ≡ []) ⊎ (m ≡ key)

pub record Fits (m : Matchers) (key : RequestKey) : Type 0 where
  pub community : Constrains m.community key.community
  pub context : Constrains m.context key.context
  pub engine_id : Constrains m.engine_id key.engine_id
  pub src_ip : Constrains m.src_ip key.src_ip
  pub dst_port : (m.dst_port ≡ 0) ⊎ (m.dst_port ≡ key.dst_port)

is_empty_iff : (s : Bytes) → (is_empty s ≡ true) ↔ (s ≡ [])
is_empty_iff [] = (λ h. refl, λ h. refl)
is_empty_iff (c ∷ s) = (λ h. cc, λ h. cc)

differs_iff : (m key : Bytes) → (differs m key ≡ false) ↔ Constrains m key
differs_iff m key = (
  λ h. ground (arith, is_empty_iff m, bytes_eq_iff m key),
  λ h. ground (arith, is_empty_iff m, bytes_eq_iff m key),
)

-- A rule matches a request exactly if each of its fields that is given equals that of the request.
pub rule_matches_iff : (m : Matchers) (key : RequestKey) → (rule_matches m key ≡ true) ↔ Fits m key
unfolding rule_matches
rule_matches_iff m key =
    let a = differs_iff m.community key.community in
    let b = differs_iff m.context key.context in
    let c = differs_iff m.engine_id key.engine_id in
    let d = differs_iff m.src_ip key.src_ip in
    (
      λ h. record {
        community = a.0 (ground arith);
        context = b.0 (ground arith);
        engine_id = c.0 (ground arith);
        src_ip = d.0 (ground arith);
        dst_port = ground arith;
      },
      λ h.
          rw (a.1 h.community, b.1 h.context, c.1 h.engine_id, d.1 h.src_ip)
            (ground (arith, h.dst_port)),
    )

-- Every rule names a dataset.
unfoldable pub all_named : List Rule → Bool
all_named [] = true
all_named (rule ∷ rules) = not (is_empty (trim_space rule.action.dataset_path)) && all_named rules

validate-all_named :
    (rules : List Rule) → validate rules ≡ (if all_named rules then some rules else none)
unfolding validate all_named
validate-all_named [] = refl
validate-all_named (rule ∷ rules) = ground (arith, validate-all_named rules)

-- If every rule names a dataset, there is a router.
pub new_router-some :
    (rules : List Rule) → all_named rules ≡ true → (r : Router) × (new_router rules ≡ some r)
unfolding new_router
new_router-some rules h =
    (record { routes = sort_stable_desc priority rules }, rw (validate-all_named, h, new_router))

abbrev pub path_of : Option Rule → Bytes
path_of none = []
path_of (some rule) = rule.action.dataset_path

select_path :
    (r : Router) (key : RequestKey)
    → select (some r) key ≡ path_of (find_first (λ rule. rule_matches rule.match key) r.routes)
unfolding select
select_path r key = ground arith

pub path-new_router :
    (rules : List Rule) (key : RequestKey)
    → select (new_router rules) key ≡ (
        if all_named rules
        then path_of (best priority (λ rule. rule_matches rule.match key) rules)
        else [])
unfolding new_router
path-new_router rules key = elim (Bool-cases (all_named rules)) [
  | inl e ↦
      rw (validate-all_named, e, new_router)
        (select_path (record { routes = sort_stable_desc priority rules }) key
          ∙ ap path_of
              (find_first-sort_stable priority (λ rule. rule_matches rule.match key) rules))
  | inr e ↦ rw (validate-all_named, e, new_router) (unfold select in refl)
]

router_if :
    (rules : List Rule)
    → (all_named rules ≡ true → (r : Router) × (new_router rules ≡ some r))
      × (all_named rules ≡ false → new_router rules ≡ none)
unfolding new_router
router_if rules = (new_router-some rules, λ e. rw (new_router, validate-all_named, e) refl)

-- There is a router exactly if every rule names a dataset; NewRouter fails otherwise. The router selects
-- the dataset of the matching rule with the highest priority, the first in the configuration among
-- equals, and the empty path if none matches.
pub select-new_router :
    (rules : List Rule) (key : RequestKey)
    → (all_named rules ≡ false → new_router rules ≡ none)
      × (all_named rules ≡ true
          → (r : Router) × (new_router rules ≡ some r)
            × (select (some r) key
                ≡ path_of (best priority (λ rule. rule_matches rule.match key) rules)))
select-new_router rules key = (
  (router_if rules).1,
  λ named.
      let (r, made) = new_router-some rules named in
      let path : select (new_router rules) key
          ≡ path_of (best priority (λ rule. rule_matches rule.match key) rules) =
        path-new_router rules key
        ∙ ap
            (λ b.
              if b then path_of (best priority (λ rule. rule_matches rule.match key) rules) else [])
            named in
      (r, made, ap (λ o. select o key) (sym made) ∙ path),
)
