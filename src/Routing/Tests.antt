-- ===== src/Routing/Tests.antt =====
-- A router at a concrete request.
use go_snmpsim.Prelude.{◌≡◌, refl, [], ◌∷◌, List, codes, true, false, none, some}
use go_snmpsim.Sort.Stable.{best}
use go_snmpsim.Routing.{
  Router, Matchers, Rule, RequestKey, rule_matches, rule_priority, priority, new_router, select,
}
use go_snmpsim.Routing.Select.{all_named, path_of, select-new_router}

abbrev anything : Matchers
anything = record { community = []; context = []; engine_id = []; src_ip = []; dst_port = 0 }

abbrev for_public : Rule
for_public = record {
  match = record anything { community = codes "public" };
  action = record { dataset_path = codes "a.snmprec" };
}

abbrev for_port : Rule
for_port = record {
  match = record anything { dst_port = 1161 };
  action = record { dataset_path = codes "b.snmprec" };
}

abbrev request : RequestKey
request = record {
  community = codes "public";
  context = [];
  engine_id = [];
  src_ip = codes "10.0.0.1";
  dst_port = 1161;
}

abbrev both : List Rule
both = for_port ∷ for_public ∷ []

community_first : rule_priority for_public.match ≡ 3
unfolding rule_priority
community_first = refl

select-new_router_example :
    (all_named both ≡ false → new_router both ≡ none)
    × (all_named both ≡ true
        → (r : Router) × (new_router both ≡ some r)
          × (select (some r) request
              ≡ path_of (best priority (λ rule. rule_matches rule.match request) both)))
select-new_router_example = select-new_router both request
