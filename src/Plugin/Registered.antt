-- ===== src/Plugin/Registered.antt =====
-- The callback of a driver that has started (`SparkPlugListener` of the Spark plugin), against the
-- routes of server/src/routes.rs and the wait for an address of server/src/proxy.rs.
use mathlib.Core.Path.{subst}
use spark_plug.Common.{
  ℕ, String, ◌≡◌, ◌≢◌, refl, true, false, Option, none, some, List, [], ◌∷◌, arith, Result, ok, err,
  ap, sym, ◌∙◌, string_eq, map_where, count_where, count_of_none, All, All-In, ok-ne-err,
}
use spark_plug.Map.{get}
use spark_plug.Application.{Model, running}
use spark_plug.Http.{Status, bad_request, unauthorized, not_found, internal_server_error, HeaderMap}
use spark_plug.Database.{Database}
use spark_plug.Auth.{UserAuthMethod, BearerToken, token_authorize}
use spark_plug.Auth.Bearer.{callback_token_iff}
use spark_plug.Proxy.Cache.{has_token}
use spark_plug.Proxy.Upstream.{resolve_upstream_address, verdict, address_of}
use spark_plug.Routes.Api.{AppState, World, ApplicationCallbackRequest, set_running}
use spark_plug.Routes.{app_callback}
use spark_plug.Routes.Callback.{app_callback-Answered, updated, missing, failed}
use spark_plug.Router.{
  Axum, Method, callback, Request, done, callback_api, routed, get_router, respond,
}
use spark_plug.Client.Stop.{status_of}
use spark_plug.Plugin.{
  HttpRequest, Driver, Listener, connect_service_started, callback_uri, connect_uri, callback_body,
  started_request, after_post, matched, on_other_event, sent_by, update_last_active,
}
use spark_plug.Plugin.{World as Outside}

-- The headers of a request as they arrive.
abbrev pub header_map : HttpRequest → HeaderMap
header_map r name = elim (get r.headers name) [ none ↦ none | some v ↦ some (ok v) ]

-- An application with a token is RUNNING at an address.
abbrev IsAt : String → String → Model → Type 0
IsAt token address m = has_token token m ≡ true → (m.state ≡ running) × (m.address ≡ some address)

module _ (A : Axum String) (D : Database) (s : AppState) (methods : List UserAuthMethod)
    (l : Listener) (host : String) (port : ℕ) (w : World D) where
  abbrev pub address : String
  address = connect_uri host port

  -- The request that the server gets.
  abbrev pub request : Request String
  request = record {
    method = Method.post;
    path = "/callback";
    headers = header_map (started_request l address);
    body = callback_body address l.application_id;
    uuid = "";
  }

  abbrev pub params : ApplicationCallbackRequest
  params = record { address = address; application_id = l.application_id }

  -- What may become of it: it does not reach the server, its response is lost, or the driver gets
  -- the status of the server's response. The second argument is the server's world after it.
  pub data IsSent : Result String ℕ → World D → Type 0 where
    unsent : (e : String) → IsSent (err e) w
    lost : (e : String) → IsSent (err e) (get_router A D s methods request w).1
    answered :
        IsSent
          (ok (status_of (get_router A D s methods request w).0))
          (get_router A D s methods request w).1

  -- What `axum` is documented to do; the text is the JSON of the two fields where neither of them
  -- has a character that JSON escapes.
  pub record IsServed : Type 0 where
    pub matched : A.matched "/callback" ≡ some callback
    pub parsed : A.callback_json (callback_body address l.application_id) ≡ ok params

  -- The session is registered: there are rows with its token, and they are RUNNING at its address.
  pub record IsRegistered (w' : World D) : Type 0 where
    pub known : count_where (has_token l.token) (D.rows w.db) ≢ 0
    pub rows : D.rows w'.db ≡ map_where (has_token l.token) (set_running params) (D.rows w.db)

  abbrev bearer : BearerToken
  bearer = record { token = l.token }

  token_read : token_authorize (header_map (started_request l address)) ≡ ok bearer
  unfolding started_request get
  token_read = (callback_token_iff (header_map (started_request l address)) l.token).1 refl

  routed_post :
      IsServed
      → get_router A D s methods request w ≡ (
        respond (λ u. done) (app_callback D bearer params w).0,
        (app_callback D bearer params w).1,
      )
  unfolding get_router routed callback_api
  routed_post h = rw (h.matched, token_read, h.parsed) refl

  accepted : (r : Result Status (Unit {0})) → status_of (respond (λ u. done) r) ≡ 200 → r ≡ ok tt
  accepted (ok u) e = refl
  accepted (err bad_request) e = absurd (omega arith)
  accepted (err unauthorized) e = absurd (omega arith)
  accepted (err not_found) e = absurd (omega arith)
  accepted (err internal_server_error) e = absurd (omega arith)

  IsRegistered-by :
      status_of (respond (λ u. done) (app_callback D bearer params w).0) ≡ 200
      → IsRegistered (app_callback D bearer params w).1
  IsRegistered-by e = elim (app_callback-Answered D bearer w params) [
    | updated r n rows ↦ record { known = n; rows = rows }
    | missing r _ _ ↦ absurd (ok-ne-err (sym (accepted _ e) ∙ r))
    | failed r _ ↦ absurd (ok-ne-err (sym (accepted _ e) ∙ r))
  ]

  success : (status : ℕ) (d : Driver) → (after_post (ok status) d).stopped ≡ false → status ≡ 200
  unfolding after_post
  success status d e = ground arith

  IsRegistered-of :
      (out : Result String ℕ) (w' : World D) (d : Driver)
      → IsServed
      → IsSent out w'
      → (after_post out d).stopped ≡ false
      → IsRegistered w'
  unfolding after_post
  IsRegistered-of out w' d h (unsent e) q = cc
  IsRegistered-of out w' d h (lost e) q = cc
  IsRegistered-of out w' d h answered q =
      rw (routed_post h)
        (IsRegistered-by (ap (λ p. status_of p.0) (sym (routed_post h)) ∙ success _ d q))

  has_address :
      (ms : List Model)
      → All (IsAt l.token address) (map_where (has_token l.token) (set_running params) ms)
  has_address [] = tt
  has_address (m ∷ ms) = (ground arith, has_address ms)

  -- Some row has the token still.
  still_known :
      (ms : List Model)
      → count_where (has_token l.token) (map_where (has_token l.token) (set_running params) ms)
        ≡ count_where (has_token l.token) ms
  still_known [] = refl
  still_known (m ∷ ms) = ground (arith, still_known ms)

  address_found :
      (m : Model) (w' : World D)
      → D.find_one (has_token l.token) w'.db ≡ ok (some m)
      → m.state ≡ running
      → m.address ≡ some address
      → resolve_upstream_address D l.token ((false, w'.db) ∷ []) ≡ some (ok address)
  unfolding resolve_upstream_address verdict address_of
  address_found m w' q e a = ground arith

  found_address :
      (o : Option Model) (w' : World D)
      → IsRegistered w'
      → D.find_one (has_token l.token) w'.db ≡ ok o
      → resolve_upstream_address D l.token ((false, w'.db) ∷ []) ≡ some (ok address)
  found_address none w' h q = absurd (
      h.known (
        sym (still_known (D.rows w.db))
        ∙ ap (count_where (has_token l.token)) (sym h.rows)
        ∙ count_of_none (has_token l.token) (λ m. m) (D.rows w'.db)
            (D.find_one_ok (has_token l.token) w'.db none q)))
  found_address (some m) w' h q =
      let (token, listed) = D.find_one_ok (has_token l.token) w'.db (some m) q in
      let all = subst (All (IsAt l.token address)) (sym h.rows) (has_address (D.rows w.db)) in
      let (state, at) = All-In (IsAt l.token address) (D.rows w'.db) all listed token in
      address_found m w' q state at

  posted :
      (world : Outside) (now : ℕ) (d : Driver)
      → world.uri (callback_uri l) ≡ true
      → on_other_event world l now (connect_service_started host port) d
        ≡ after_post
            (world.send (started_request l address))
            (sent_by (started_request l address) (update_last_active now d))
  unfolding on_other_event matched started_request
  posted world now d u = rw u refl

  -- A driver whose Connect service starts, and whose listener does not stop it, is registered with
  -- the server: there are applications with its token, and they are RUNNING at its address; and a
  -- dispatcher of the token that looks for the address finds it, where its query succeeds.
  pub started-IsRegistered :
      (world : Outside) (now : ℕ) (d : Driver) (w' : World D) (o : Option Model)
      → world.uri (callback_uri l) ≡ true
      → IsServed
      → IsSent (world.send (started_request l address)) w'
      → (on_other_event world l now (connect_service_started host port) d).stopped ≡ false
      → D.find_one (has_token l.token) w'.db ≡ ok o
      → IsRegistered w'
        × (resolve_upstream_address D l.token ((false, w'.db) ∷ []) ≡ some (ok address))
  started-IsRegistered world now d w' o u h sent q f =
      let registered =
        IsRegistered-of (world.send (started_request l address)) w' _ h sent
          (ap (λ x. x.stopped) (sym (posted world now d u)) ∙ q) in
      (registered, found_address o w' registered f)
