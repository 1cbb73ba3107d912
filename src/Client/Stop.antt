-- ===== src/Client/Stop.antt =====
-- `stop_application` of clients/rust/src/lib.rs against the routes of server/src/routes.rs.
use Prim.Native.String.{◌++◌}
use spark_plug.Common.{
  ℕ, ℤ, String, ◌≡◌, ◌≤◌, ◌<◌, refl, true, none, some, List, arith, Result, ok, err, In, inl, inr,
  Result-cases, ap, sym, ◌∙◌, map_where, ok-ne-err, ◌≢◌, ◌>>=◌,
}
use spark_plug.Map.{get}
use spark_plug.Text.Show.{show_int}
use spark_plug.Http.{Status, bad_request, unauthorized, not_found, internal_server_error, HeaderMap}
use spark_plug.Database.{Database}
use spark_plug.Application.{Model}
use spark_plug.Auth.{UserId, UserAuthMethod, authorize}
use spark_plug.Routes.Api.{AppState, World, is_owned, set_finished}
use spark_plug.Routes.{delete_app}
use spark_plug.Routes.Owner.{delete_app_ok, delete_app_finishes}
use spark_plug.Router.{
  Axum, Method, app, Request, Response, done, one, many, names, status, rejected,
  method_not_allowed, no_route, user_api, routed, get_router, respond,
}
use spark_plug.Client.{Network, Reply, SparkPlugClient, url, stop_application}

abbrev pub as_u16 : Status → ℕ
as_u16 bad_request = 400
as_u16 unauthorized = 401
as_u16 not_found = 404
as_u16 internal_server_error = 500

-- The status that a response is sent with.
abbrev pub status_of : Response → ℕ
status_of done = 200
status_of (one i) = 200
status_of (many is) = 200
status_of (names ns) = 200
status_of (status s) = as_u16 s
status_of (rejected code) = code
status_of method_not_allowed = 405
status_of no_route = 404

module _ {Body : Type 0} (A : Axum Body) (D : Database) (s : AppState)
    (methods : List UserAuthMethod) (N : Network (World D)) (c : SparkPlugClient) (app_id : ℤ)
    (headers : HeaderMap) (body : Body) (uuid : String) (w : World D) where
  -- The request that the server gets.
  abbrev pub request : Request Body
  request = record {
    method = Method.delete;
    path = "/apps/" ++ show_int app_id;
    headers = headers;
    body = body;
    uuid = uuid;
  }

  -- What may become of it: it does not reach the server, its response is lost, or the client gets
  -- a response with the status of the server's.
  pub data IsSent : Result String Reply × World D → Type 0 where
    unsent : (e : String) → IsSent (err e, w)
    lost : (e : String) → IsSent (err e, (get_router A D s methods request w).1)
    answered :
        (r : Reply)
        → r.status ≡ status_of (get_router A D s methods request w).0
        → IsSent (ok r, (get_router A D s methods request w).1)

  -- What `reqwest` and `axum` are documented to do.
  pub record IsConnected : Type 0 where
    pub sent : IsSent (N.delete (url c ("/apps/" ++ show_int app_id)) w)
    pub refused :
        (r : Reply)
        → 400 ≤ r.status
        → r.status < 600
        → (e : String) × (N.error_for_status r ≡ err e)
    pub matched : A.matched ("/apps/" ++ show_int app_id) ≡ some (app (show_int app_id))
    pub parsed : A.app_id (show_int app_id) ≡ ok app_id

  routed_with :
      (user : UserId)
      → IsConnected
      → authorize methods headers ≡ ok user
      → get_router A D s methods request w
        ≡ (respond (λ u. done) (delete_app D s app_id user w).0, (delete_app D s app_id user w).1)
  unfolding get_router routed user_api
  routed_with user h e = rw (h.matched, e, h.parsed) refl

  routed_without :
      (x : Status)
      → IsConnected
      → authorize methods headers ≡ err x
      → get_router A D s methods request w ≡ (status x, w)
  unfolding get_router routed user_api
  routed_without x h e = rw (h.matched, e) refl

  error_status : (x : Status) → (400 ≤ as_u16 x) × (as_u16 x < 600)
  error_status bad_request = (omega arith, omega arith)
  error_status unauthorized = (omega arith, omega arith)
  error_status not_found = (omega arith, omega arith)
  error_status internal_server_error = (omega arith, omega arith)

  not_refused :
      (r : Reply) (u : Unit {0}) (x : Status)
      → IsConnected
      → N.error_for_status r ≡ ok u
      → r.status ≢ as_u16 x
  not_refused r u x h e same =
      let (low, high) = error_status x in
      let (y, f) = h.refused r (omega arith) (omega arith) in absurd (ok-ne-err (sym e ∙ f))

  -- The user's rows with this id are finished in a world, and a token of one of them has no
  -- connection there.
  pub record IsStopped (w' : World D) : Type 0 where
    pub user : UserId
    pub authorized : authorize methods headers ≡ ok user
    pub found : Model
    pub listed : In found (D.rows w.db)
    pub owned : is_owned user.name app_id found ≡ true
    pub finished : D.rows w'.db ≡ map_where (is_owned user.name app_id) set_finished (D.rows w.db)
    pub forgotten : get w'.upstreams.connections found.token ≡ none

  IsStopped-by :
      (user : UserId) (u : Unit {0})
      → authorize methods headers ≡ ok user
      → (delete_app D s app_id user w).0 ≡ ok u
      → IsStopped (delete_app D s app_id user w).1
  IsStopped-by user u e d =
      let (m, n, f, q) = delete_app_ok D s app_id user w u d in
      let (owned, listed) = D.find_one_ok (is_owned user.name app_id) w.db (some m) f in
      let (rows, gone) = delete_app_finishes D s app_id user w m n f q in
      record {
        user = user;
        authorized = e;
        found = m;
        listed = listed;
        owned = owned;
        finished = rows;
        forgotten = gone;
      }

  IsStopped-at :
      (r : Reply) (u : Unit {0})
      → IsConnected
      → N.error_for_status r ≡ ok u
      → r.status ≡ status_of (get_router A D s methods request w).0
      → IsStopped (get_router A D s methods request w).1
  IsStopped-at r u h ok_r same = elim (Result-cases (authorize methods headers)) [
    | inr (x, e) ↦
        absurd (not_refused r u x h ok_r (same ∙ ap (λ p. status_of p.0) (routed_without x h e)))
    | inl (user, e) ↦ elim (Result-cases (delete_app D s app_id user w).0) [
      | inr (x, d) ↦ absurd (
          not_refused r u x h ok_r (
            same
            ∙ ap (λ p. status_of p.0) (routed_with user h e)
            ∙ ap (λ o. status_of (respond (λ v. done) o)) d))
      | inl (v, d) ↦ rw (routed_with user h e) (IsStopped-by user v e d)
    ]
  ]

  IsStopped-of :
      (out : Result String Reply × World D) (u : Unit {0})
      → IsConnected
      → IsSent out
      → (out.0 >>= N.error_for_status) ≡ ok u
      → IsStopped out.1
  IsStopped-of out u h (unsent e) q = absurd (ok-ne-err (sym q))
  IsStopped-of out u h (lost e) q = absurd (ok-ne-err (sym q))
  IsStopped-of out u h (answered r same) q = IsStopped-at r u h q same

  -- Where the client's request reaches the server, if at all, as its DELETE, a `stop_application`
  -- that succeeds has passed the server's authorization, and has set the user's rows with this id,
  -- of which there is at least one, to FINISHED with no address, and the server has no connection
  -- to its driver any more.
  pub stop_application-IsStopped :
      (u : Unit {0})
      → IsConnected
      → (stop_application N c app_id w).0 ≡ ok u
      → IsStopped (stop_application N c app_id w).1
  unfolding stop_application
  stop_application-IsStopped u h e =
      IsStopped-of (N.delete (url c ("/apps/" ++ show_int app_id)) w) u h h.sent e
