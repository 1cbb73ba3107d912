-- ===== src/Router/Layers.antt =====
-- What a request without credentials gets, on every path (`ProxyService::call` of
-- server/src/proxy.rs over `get_router` of server/src/routes.rs).
use spark_plug.Common.{
  ℕ, String, ◌≡◌, refl, Bool, Option, none, some, List, Result, ok, err, All, inl, inr,
  Result-cases, Bool-cases,
}
use spark_plug.Database.{Database}
use spark_plug.Error.{Error}
use spark_plug.Http.{Status, unauthorized, HeaderMap}
use spark_plug.Text.Bearer.{IsBearer}
use spark_plug.Auth.{UserId, BearerToken, UserAuthMethod, authorize, token_authorize}
use spark_plug.Auth.Users.{IsSilent, unauthorized_iff}
use spark_plug.Auth.Bearer.{callback_token_iff}
use spark_plug.Proxy.Bearer.{extract_bearer_token}
use spark_plug.Proxy.Bearer.Agreement.{proxy_token_iff}
use spark_plug.Proxy.Dispatch.{Meanwhile, with_session, dispatch_request}
use spark_plug.Proxy.Grpc.{GrpcResponse}
use spark_plug.Proxy.Session.{is_proxied}
use spark_plug.Routes.Api.{AppState, World}
use spark_plug.Router.{
  Axum, Request, Response, status, no_route, Served, failed, api, Route, apps, app, versions,
  callback, with_user, with_token, routed, get_router, call,
}

-- No method finds a user for the headers, and they have no bearer token.
pub record IsAnonymous (methods : List UserAuthMethod) (headers : HeaderMap) : Type 0 where
  pub no_user : All (IsSilent headers) methods
  pub no_token : (t : String) → IsBearer headers t → ⊥

-- An answer that carries no application: a gRPC error, a status of the layers, or 404.
pub data IsRefusal : Served → Type 0 where
  grpc : (g : GrpcResponse) → IsRefusal (failed g)
  layer : (e : Status) → IsRefusal (api (status e))
  unknown : IsRefusal (api no_route)

module _ {Body : Type 0} (A : Axum Body) (D : Database) (s : AppState) where
  -- It is refused, and the world is as it was.
  abbrev Refused : World D → Response × World D → Type 0
  Refused w o = IsRefusal (api o.0) × (o.1 ≡ w)

  with_token-Refused :
      (req : Request Body) (w : World D) (t : Result Status BearerToken)
      → ((x : BearerToken) → t ≡ ok x → ⊥)
      → Refused w (with_token A D s req w t)
  with_token-Refused req w (ok x) h = absurd (h x refl)
  with_token-Refused req w (err e) h = (layer e, refl)

  with_user-Refused :
      (r : Route) (req : Request Body) (w : World D) (u : Result Status UserId)
      → u ≡ err unauthorized
      → Refused w (with_user A D s r req w u)
  with_user-Refused r req w (ok u) h = cc
  with_user-Refused r req w (err e) h = (layer e, refl)

  module _ (methods : List UserAuthMethod) (req : Request Body) (w : World D)
      (h : IsAnonymous methods req.headers) where
    user_refused : authorize methods req.headers ≡ err unauthorized
    user_refused = (unauthorized_iff req.headers methods).1 h.no_user

    routed-Refused : (r : Option Route) → Refused w (routed A D s methods r req w)
    unfolding routed
    routed-Refused none = (unknown, refl)
    routed-Refused (some callback) =
        with_token-Refused req w (token_authorize req.headers)
          (λ x e. h.no_token x.token ((callback_token_iff req.headers x.token).0 e))
    routed-Refused (some apps) =
        with_user-Refused apps req w (authorize methods req.headers) user_refused
    routed-Refused (some (app x)) =
        with_user-Refused (app x) req w (authorize methods req.headers) user_refused
    routed-Refused (some versions) =
        with_user-Refused versions req w (authorize methods req.headers) user_refused

    get_router-Refused : Refused w (get_router A D s methods req w)
    unfolding get_router
    get_router-Refused = routed-Refused (A.matched req.path)

    dispatch_refused :
        (world : Meanwhile)
        → (e : Error) × (dispatch_request D world w.db req.headers w.upstreams
            ≡ (err e, w.upstreams))
    unfolding dispatch_request with_session
    dispatch_refused world = elim (Result-cases (extract_bearer_token req.headers)) [
      | inl (t, e) ↦ absurd (h.no_token t ((proxy_token_iff req.headers t).0 e).0)
      | inr (x, e) ↦ (x, rw e refl)
    ]

    -- A request for which no method finds a user and which has no bearer token is refused on every
    -- path, and changes nothing: neither the database, nor the cache, nor the watched launches.
    pub call_anonymous :
        (from_str : List ℕ → Bool) (world : Meanwhile)
        → IsRefusal (call A D s from_str world methods req w).0
          × ((call A D s from_str world methods req w).1 ≡ w)
    call_anonymous from_str world = elim (Bool-cases (is_proxied req.path)) [
      | inl p ↦ let (x, e) = dispatch_refused world in unfold call in rw p (rw e (grpc _, refl))
      | inr p ↦ unfold call in rw p get_router-Refused
    ]
