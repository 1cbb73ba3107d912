-- ===== src/Router.antt =====
-- server/src/routes.rs: `get_router`, the routes of the API behind their authorization layers, and
-- `ProxyService::call` of server/src/proxy.rs, which chooses between the API and the proxy.
pub mod Layers
pub mod Others
pub mod Reached
use spark_plug.Common.{
  ℕ, ℤ, String, Bool, true, false, Option, none, some, List, Result, ok, err, if◌then◌else◌,
}
use spark_plug.Http.{Status, HeaderMap}
use spark_plug.Database.{Database}
use spark_plug.Error.{Error}
use spark_plug.Auth.{UserId, BearerToken, UserAuthMethod, authorize, token_authorize}
use spark_plug.Proxy.Dispatch.{Meanwhile, dispatch_request}
use spark_plug.Proxy.Grpc.{GrpcResponse, proxy_error_response}
use spark_plug.Proxy.Session.{is_proxied}
use spark_plug.Routes.Api.{
  AppState, World, CreateApplicationRequest, ListApplicationsRequest, ApplicationCallbackRequest,
  ApplicationInfo,
}
use spark_plug.Routes.{
  create_app, get_app, list_apps, list_versions, delete_app, app_callback, app_callback_delete,
}

-- A HEAD request is a `get` here: `axum` has the same handler serve it, and drops the body.
pub data Method : Type 0 where
  get post delete other : Method

-- The four routes: `/apps`, `/apps/{app_id}`, `/versions` and `/callback`.
pub data Route : Type 0 where
  apps : Route
  app : String → Route
  versions : Route
  callback : Route

-- What `axum` does for the handlers: which route a path matches, with the text of its parameter,
-- and what the extractors make of the parameter, the query and the body. An extractor that fails
-- answers with a status of its own.
pub record Axum (Body : Type 0) : Type 0 where
  pub matched : String → Option Route
  pub app_id : String → Result ℕ ℤ
  pub list_query : Body → Result ℕ ListApplicationsRequest
  pub create_json : Body → Result ℕ CreateApplicationRequest
  pub callback_json : Body → Result ℕ ApplicationCallbackRequest

-- `uuid` is the `Uuid::new_v4` that a handler would draw.
pub record Request (Body : Type 0) : Type 0 where
  pub method : Method
  pub path : String
  pub headers : HeaderMap
  pub body : Body
  pub uuid : String

pub data Response : Type 0 where
  done : Response
  one : ApplicationInfo → Response
  many : List ApplicationInfo → Response
  names : List String → Response
  status : Status → Response
  rejected : ℕ → Response
  method_not_allowed : Response
  no_route : Response

abbrev pub respond : {A : Type 0} → (A → Response) → Result Status A → Response
respond f (ok a) = f a
respond f (err s) = status s

module _ {Body : Type 0} (A : Axum Body) (D : Database) (s : AppState) where
  -- A handler behind an extractor.
  abbrev extracted :
      {P R : Type 0}
      → Result ℕ P
      → (R → Response)
      → (P → World D → Result Status R × World D)
      → World D
      → Response × World D
  extracted (err code) f handler w = (rejected code, w)
  extracted (ok p) f handler w = let (r, w') = handler p w in (respond f r, w')

  -- `user_api`, behind `UserAuth`
  unfoldable pub user_api : Method → Route → UserId → Request Body → World D → Response × World D
  user_api get apps user req w =
      extracted (A.list_query req.body) many (λ q. list_apps D s user q) w
  user_api post apps user req w =
      extracted (A.create_json req.body) one (λ p. create_app D s req.uuid user p) w
  user_api get (app text) user req w = extracted (A.app_id text) one (λ i. get_app D s i user) w
  user_api delete (app text) user req w =
      extracted (A.app_id text) (λ u. done) (λ i. delete_app D s i user) w
  user_api get versions user req w = (names (list_versions s), w)
  user_api m r user req w = (method_not_allowed, w)

  -- `callback_api`, behind `TokenAuth`
  unfoldable pub callback_api : Method → BearerToken → Request Body → World D → Response × World D
  callback_api post token req w =
      extracted (A.callback_json req.body) (λ u. done) (λ p. app_callback D token p) w
  callback_api delete token req w =
      let (r, w') = app_callback_delete D token w in (respond (λ u. done) r, w')
  callback_api m token req w = (method_not_allowed, w)

  abbrev pub with_user : Route → Request Body → World D → Result Status UserId → Response × World D
  with_user r req w (ok user) = user_api req.method r user req w
  with_user r req w (err e) = (status e, w)

  abbrev pub with_token : Request Body → World D → Result Status BearerToken → Response × World D
  with_token req w (ok token) = callback_api req.method token req w
  with_token req w (err e) = (status e, w)

  -- The layers of a matched route run before its methods are looked at.
  unfoldable pub routed :
      List UserAuthMethod → Option Route → Request Body → World D → Response × World D
  routed methods none req w = (no_route, w)
  routed methods (some callback) req w = with_token req w (token_authorize req.headers)
  routed methods (some r) req w = with_user r req w (authorize methods req.headers)

  -- The router that `get_router` makes, with the `auth_methods` of its `user_auth`.
  unfoldable pub get_router : List UserAuthMethod → Request Body → World D → Response × World D
  unfolding routed
  get_router methods req w = routed methods (A.matched req.path) req w

-- What `ProxyService::call` answers. A response from upstream is a number.
pub data Served : Type 0 where
  upstream : ℕ → Served
  failed : GrpcResponse → Served
  api : Response → Served

abbrev pub served : (List ℕ → Bool) → Result Error ℕ → Served
served from_str (ok r) = upstream r
served from_str (err e) = failed (proxy_error_response from_str e)

module _ {Body : Type 0} (A : Axum Body) (D : Database) (s : AppState) where
  -- `ProxyService::call`. That the dispatcher of a proxied request may mark its application as failed
  -- happens in a task of its own: it is the step `given_up` of Lifecycle.Reach.
  unfoldable pub call :
      (List ℕ → Bool) → Meanwhile → List UserAuthMethod → Request Body → World D → Served × World D
  unfolding is_proxied get_router dispatch_request
  call from_str world methods req w =
      let (r, c) = dispatch_request D world w.db req.headers w.upstreams in
      let (response, w') = get_router A D s methods req w in
      if is_proxied req.path
      then (served from_str r, record w { upstreams = c })
      else (api response, w')
