-- ===== src/Labs/Perform.antt =====
-- cmd/snmpsim-api/main.go: the handlers that the router calls, run on a resource manager.
use go_snmpsim.Prelude.{ℕ, Option, List, [], ◌∷◌, Bytes}
use go_snmpsim.Labs
use go_snmpsim.Labs.Lifecycle
use go_snmpsim.Labs.{LabEngine, ResourceManager, Host, Reply}
use go_snmpsim.Labs.Resources
use go_snmpsim.Labs.Routes.{
  Method, route, Call, create_lab, list_labs, get_lab, delete_lab, start_lab, stop_lab,
  create_engine, list_engines, get_engine, delete_engine, create_endpoint, list_endpoints,
  get_endpoint, delete_endpoint, create_user, list_users, get_user, delete_user, create_dataset,
  list_datasets, get_dataset, delete_dataset, refuse,
}

-- The body of a request, as the handlers that read one decode it.
pub record Body : Type 0 where
  pub as_lab : Option (Bytes × Bytes)
  pub as_engine : Option LabEngine
  pub as_endpoint : Option (Bytes × Bytes × ℕ)
  pub as_user : Option (Bytes × Bytes)
  pub as_dataset : Option (Bytes × Bytes × Bytes)

-- A call runs its handler: the code of the answer, and the state behind it.
module _ {S W : Type 0} (host : Host S W) (now : ℕ) (body : Body) (rm : ResourceManager S)
    (w : W) where
  abbrev coded : {A : Type 0} → Reply A × ResourceManager S → ℕ × ResourceManager S × W
  coded (reply, left) = (reply.code, left, w)

  unfoldable pub perform : Call → ℕ × ResourceManager S × W
  unfolding Labs.create_lab Labs.list_labs Labs.get_lab Labs.delete_lab Lifecycle.start_lab
      Lifecycle.stop_lab Labs.create_engine Labs.list_engines Labs.get_engine Labs.delete_engine
      Resources.create_endpoint Resources.list_endpoints Resources.get_endpoint
      Resources.delete_endpoint Resources.create_user Resources.list_users Resources.get_user
      Resources.delete_user Resources.create_dataset Resources.list_datasets Resources.get_dataset
      Resources.delete_dataset
  perform create_lab = coded (Labs.create_lab now body.as_lab rm)
  perform list_labs = ((Labs.list_labs rm).code, rm, w)
  perform (get_lab id) = ((Labs.get_lab id rm).code, rm, w)
  perform (delete_lab id) = let left = Labs.delete_lab id rm in (left.0, left.1, w)
  perform create_engine = coded (Labs.create_engine now body.as_engine rm)
  perform list_engines = ((Labs.list_engines rm).code, rm, w)
  perform (get_engine id) = ((Labs.get_engine id rm).code, rm, w)
  perform (delete_engine id) = let left = Labs.delete_engine id rm in (left.0, left.1, w)
  perform create_endpoint = coded (Resources.create_endpoint now body.as_endpoint rm)
  perform list_endpoints = ((Resources.list_endpoints rm).code, rm, w)
  perform (get_endpoint id) = ((Resources.get_endpoint id rm).code, rm, w)
  perform (delete_endpoint id) = let left = Resources.delete_endpoint id rm in (left.0, left.1, w)
  perform create_user = coded (Resources.create_user now body.as_user rm)
  perform list_users = ((Resources.list_users rm).code, rm, w)
  perform (get_user id) = ((Resources.get_user id rm).code, rm, w)
  perform (delete_user id) = let left = Resources.delete_user id rm in (left.0, left.1, w)
  perform create_dataset = coded (Resources.create_dataset now body.as_dataset rm)
  perform list_datasets = ((Resources.list_datasets rm).code, rm, w)
  perform (get_dataset id) = ((Resources.get_dataset id rm).code, rm, w)
  perform (delete_dataset id) = let left = Resources.delete_dataset id rm in (left.0, left.1, w)
  perform (start_lab id) =
      let left = Lifecycle.start_lab host id rm w in (left.0.code, left.1, left.2)
  perform (stop_lab id) =
      let left = Lifecycle.stop_lab host id rm w in (left.0.code, left.1, left.2)
  perform (refuse code) = (code, rm, w)

-- A request as the mux gives it on, at its time.
pub record Request : Type 0 where
  pub now : ℕ
  pub body : Body
  pub method : Method
  pub path : Bytes

-- The codes of the answers to requests that come one after the other, and the state behind them.
unfoldable pub serve :
    {S W : Type 0}
    → Host S W
    → List Request
    → ResourceManager S
    → W
    → List ℕ × ResourceManager S × W
unfolding perform route
serve host [] rm w = ([], rm, w)
serve host (r ∷ requests) rm w =
    let (code, left, v) = perform host r.now r.body rm w (route r.method r.path) in
    let rest = serve host requests left v in (code ∷ rest.0, rest.1, rest.2)
