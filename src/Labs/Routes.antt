-- ===== src/Labs/Routes.antt =====
-- cmd/snmpsim-api/main.go: the router, from a method and a path to the handler that is called. `http.ServeMux` is `route`: it takes a path of its own before a
-- path that ends in a slash and stands for all paths below it. A path's bytes are ASCII.
use go_snmpsim.Prelude.{
  ℕ, Bool, true, false, List, [], ◌∷◌, ◌++◌, Bytes, codes, bytes_eq, has_prefix, drop, ◌==◌,
  if◌then◌else◌,
}

pub data Method : Type 0 where
  get post delete other : Method

-- A handler with the id that the router passes it, or a code where the router answers itself.
pub data Call : Type 0 where
  create_lab list_labs create_engine list_engines create_endpoint list_endpoints : Call
  create_user list_users create_dataset list_datasets : Call
  get_lab delete_lab start_lab stop_lab get_engine delete_engine : Bytes → Call
  get_endpoint delete_endpoint get_user delete_user get_dataset delete_dataset : Bytes → Call
  refuse : ℕ → Call

-- `contains(s, substr)`, for a `substr` of one byte.
unfoldable pub contains : Bytes → ℕ → Bool
contains [] sep = false
contains (c ∷ s) sep = let rest = contains s sep in if c == sep then true else rest

-- `current` put behind `parts`, if it is not empty.
unfoldable pub flush : Bytes → List Bytes → List Bytes
flush [] parts = parts
flush (c ∷ s) parts = parts ++ (c ∷ s) ∷ []

-- The loop of `splitPath`.
unfoldable pub split_loop : Bytes → List Bytes → Bytes → List Bytes
unfolding flush
split_loop [] parts current = flush current parts
split_loop (c ∷ s) parts current =
    let at_slash = split_loop s (flush current parts) [] in
    let within = split_loop s parts (current ++ c ∷ []) in if c == b'/' then at_slash else within

unfoldable pub split_path : Bytes → List Bytes
unfolding split_loop
split_path path = split_loop path [] []

-- The two branches of the handlers of a whole resource, and those of one item.
abbrev by_method : Method → Call → Call → Call
by_method get on_get on_other = on_get
by_method post on_get on_other = on_other
by_method delete on_get on_other = refuse 405
by_method other on_get on_other = refuse 405

unfoldable pub handle_labs : Method → Call
handle_labs method = by_method method list_labs create_lab

abbrev item_method : Method → Call → Call → Call
item_method get on_get on_delete = on_get
item_method post on_get on_delete = refuse 405
item_method delete on_get on_delete = on_delete
item_method other on_get on_delete = refuse 405

abbrev lab_action : Method → Bytes → Bytes → Call
lab_action post id action =
    if bytes_eq action (codes "start")
    then start_lab id
    else if bytes_eq action (codes "stop")
    then stop_lab id
    else refuse 404
lab_action get id action = refuse 404
lab_action delete id action = refuse 404
lab_action other id action = refuse 404

abbrev lab_parts : Method → List Bytes → Call
lab_parts method [] = refuse 404
lab_parts method (id ∷ []) = refuse 404
lab_parts method (id ∷ action ∷ more) = lab_action method id action

unfoldable pub handle_labs_detail : Method → Bytes → Call
unfolding contains split_path
handle_labs_detail method path =
    let rest = drop 6 path in
    if contains rest b'/'
    then lab_parts method (split_path rest)
    else item_method method (get_lab rest) (delete_lab rest)

unfoldable pub handle_engines : Method → Call
handle_engines method = by_method method list_engines create_engine

unfoldable pub handle_engines_detail : Method → Bytes → Call
handle_engines_detail method path =
    let id = drop 9 path in item_method method (get_engine id) (delete_engine id)

unfoldable pub handle_endpoints : Method → Call
handle_endpoints method = by_method method list_endpoints create_endpoint

unfoldable pub handle_endpoints_detail : Method → Bytes → Call
handle_endpoints_detail method path =
    let id = drop 11 path in item_method method (get_endpoint id) (delete_endpoint id)

unfoldable pub handle_users : Method → Call
handle_users method = by_method method list_users create_user

unfoldable pub handle_users_detail : Method → Bytes → Call
handle_users_detail method path =
    let id = drop 7 path in item_method method (get_user id) (delete_user id)

unfoldable pub handle_datasets : Method → Call
handle_datasets method = by_method method list_datasets create_dataset

unfoldable pub handle_datasets_detail : Method → Bytes → Call
handle_datasets_detail method path =
    let id = drop 10 path in item_method method (get_dataset id) (delete_dataset id)

-- `Register`, and what its mux does with a clean path; the routes of the health and of the metrics, and
-- the redirects of the mux, are left out.
unfoldable pub route : Method → Bytes → Call
unfolding handle_labs handle_labs_detail handle_engines handle_engines_detail handle_endpoints
    handle_endpoints_detail handle_users handle_users_detail handle_datasets handle_datasets_detail
route method path =
    if bytes_eq path (codes "/labs")
    then handle_labs method
    else if has_prefix path (codes "/labs/")
    then handle_labs_detail method path
    else if bytes_eq path (codes "/engines")
    then handle_engines method
    else if has_prefix path (codes "/engines/")
    then handle_engines_detail method path
    else if bytes_eq path (codes "/endpoints")
    then handle_endpoints method
    else if has_prefix path (codes "/endpoints/")
    then handle_endpoints_detail method path
    else if bytes_eq path (codes "/users")
    then handle_users method
    else if has_prefix path (codes "/users/")
    then handle_users_detail method path
    else if bytes_eq path (codes "/datasets")
    then handle_datasets method
    else if has_prefix path (codes "/datasets/")
    then handle_datasets_detail method path
    else refuse 404
