-- ===== src/Router/Reached.antt =====
-- A request is a step of the lifecycle: what `ProxyService::call` of server/src/proxy.rs does to
-- the world.
use mathlib.Core.Path.{subst}
use spark_plug.Common.{
  ℕ, ◌≡◌, Option, none, some, List, Result, ok, err, sym, Bool-cases, inl, inr, Bool,
}
use spark_plug.Database.{Database}
use spark_plug.Http.{Status}
use spark_plug.Auth.{UserId, BearerToken, UserAuthMethod, authorize, token_authorize}
use spark_plug.Proxy.Dispatch.{Meanwhile, dispatch_request}
use spark_plug.Proxy.Session.{is_proxied}
use spark_plug.Routes.Api.{AppState, World}
use spark_plug.Router.{
  Method, get, post, delete, Route, apps, app, versions, callback, Axum, Request, Response,
  extracted, user_api, callback_api, with_user, with_token, routed, get_router, call,
}
use spark_plug.Router.Others.{list_apps_world, get_app_world}
use spark_plug.Lifecycle.Reach.{
  Step, created, deleted, called_back, ended, proxied, Reach, here, next,
}

module _ {Body : Type 0} (A : Axum Body) (D : Database) (s : AppState) where
  still : (w v : World D) → v ≡ w → Reach D w v
  still w v e = subst (Reach D w) (sym e) here

  once : {w v : World D} → Step D w v → Reach D w v
  once st = next here st

  extracted-Reach :
      {P R : Type 0} (x : Result ℕ P) (f : R → Response)
      (g : P → World D → Result Status R × World D) (w : World D)
      → ((p : P) → Reach D w (g p w).1)
      → Reach D w (extracted A D s x f g w).1
  extracted-Reach (err code) f g w h = here
  extracted-Reach (ok p) f g w h = h p

  user_api-Reach :
      (m : Method) (r : Route) (user : UserId) (req : Request Body) (w : World D)
      → Reach D w (user_api A D s m r user req w).1
  unfolding user_api
  user_api-Reach get apps user req w =
      extracted-Reach (A.list_query req.body) _ _ w
        (λ q. still w _ (list_apps_world A D s (λ m. Bool.false) user q w))
  user_api-Reach post apps user req w =
      extracted-Reach (A.create_json req.body) _ _ w (λ p. once (created s req.uuid user p))
  user_api-Reach get (app text) user req w =
      extracted-Reach (A.app_id text) _ _ w
        (λ i. still w _ (get_app_world A D s (λ m. Bool.false) i user w))
  user_api-Reach delete (app text) user req w =
      extracted-Reach (A.app_id text) _ _ w (λ i. once (deleted s i user))
  user_api-Reach get versions user req w = here
  user_api-Reach m r user req w = here

  callback_api-Reach :
      (m : Method) (t : BearerToken) (req : Request Body) (w : World D)
      → Reach D w (callback_api A D s m t req w).1
  unfolding callback_api
  callback_api-Reach post t req w =
      extracted-Reach (A.callback_json req.body) _ _ w (λ p. once (called_back t p))
  callback_api-Reach delete t req w = once (ended t)
  callback_api-Reach m t req w = here

  with_user-Reach :
      (r : Route) (req : Request Body) (w : World D) (u : Result Status UserId)
      → Reach D w (with_user A D s r req w u).1
  with_user-Reach r req w (err e) = here
  with_user-Reach r req w (ok u) = user_api-Reach req.method r u req w

  with_token-Reach :
      (req : Request Body) (w : World D) (t : Result Status BearerToken)
      → Reach D w (with_token A D s req w t).1
  with_token-Reach req w (err e) = here
  with_token-Reach req w (ok t) = callback_api-Reach req.method t req w

  routed-Reach :
      (methods : List UserAuthMethod) (r : Option Route) (req : Request Body) (w : World D)
      → Reach D w (routed A D s methods r req w).1
  unfolding routed
  routed-Reach methods none req w = here
  routed-Reach methods (some callback) req w = with_token-Reach req w (token_authorize req.headers)
  routed-Reach methods (some apps) req w =
      with_user-Reach apps req w (authorize methods req.headers)
  routed-Reach methods (some (app x)) req w =
      with_user-Reach (app x) req w (authorize methods req.headers)
  routed-Reach methods (some versions) req w =
      with_user-Reach versions req w (authorize methods req.headers)

  get_router-Reach :
      (methods : List UserAuthMethod) (req : Request Body) (w : World D)
      → Reach D w (get_router A D s methods req w).1
  unfolding get_router
  get_router-Reach methods req w = routed-Reach methods (A.matched req.path) req w

  -- What a request does to the world is at most one step of the lifecycle, so every theorem over
  -- the reachable tables holds of a server that answers requests.
  pub call-Reach :
      (from_str : List ℕ → Bool) (world : Meanwhile) (methods : List UserAuthMethod)
      (req : Request Body) (w : World D)
      → Reach D w (call A D s from_str world methods req w).1
  call-Reach from_str world methods req w = elim (Bool-cases (is_proxied req.path)) [
    | inl p ↦
        unfold call in
        rw p (once (proxied (dispatch_request D world w.db req.headers w.upstreams).1))
    | inr p ↦ unfold call in rw p (get_router-Reach methods req w)
  ]
