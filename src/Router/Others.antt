-- ===== src/Router/Others.antt =====
-- What a request to the API cannot touch (`get_router` of server/src/routes.rs).
use spark_plug.Common.{
  ℤ, ℕ, String, ◌≡◌, refl, Bool, false, Option, none, some, List, arith, Result, ok, err, inl, inr,
  Bool-cases, keep, keep-map_where, ap, ◌∙◌, string_eq, int_eq, eq_iff,
}
use spark_plug.Application.{Model}
use spark_plug.Database.{Database}
use spark_plug.Http.{Status, HeaderMap}
use spark_plug.Auth.{UserId, BearerToken, UserAuthMethod, authorize, token_authorize}
use spark_plug.Routes.Api.{
  AppState, World, CreateApplicationRequest, ListApplicationsRequest, set_failed, set_finished,
  set_running, is_owned,
}
use spark_plug.Routes.{create_app, get_app, list_apps, delete_app}
use spark_plug.Routes.Create.{unchanged, added, create_app-Adds}
use spark_plug.Routes.Owner.{delete_app_rows}
use spark_plug.Routes.Callback.{
  Answered, updated, missing, failed, app_callback-Answered, app_callback_delete-Answered,
}
use spark_plug.Proxy.Cache.{has_token}
use spark_plug.Proxy.Dispatch.{Meanwhile}
use spark_plug.Proxy.Session.{is_proxied}
use spark_plug.Router.{
  Method, get, post, delete, Route, apps, app, versions, callback, Axum, Request, user_api,
  callback_api, extracted, Response, with_user, with_token, routed, get_router, call,
}

module _ {Body : Type 0} (A : Axum Body) (D : Database) (s : AppState) (others : Model → Bool) where
  -- The test leaves out every application of the user, and every one with the token.
  abbrev pub LeavesOutUser : UserId → Type 0
  LeavesOutUser user = (m : Model) → m.username ≡ user.name → others m ≡ false

  abbrev pub LeavesOutToken : BearerToken → Type 0
  LeavesOutToken t = (m : Model) → m.token ≡ t.token → others m ≡ false

  -- The applications that pass the test are the same ones.
  abbrev Kept : World D → World D → Type 0
  Kept w v = keep others (D.rows v.db) ≡ keep others (D.rows w.db)

  created-Kept :
      (token : String) (user : UserId) (params : CreateApplicationRequest) (w : World D)
      → LeavesOutUser user
      → Kept w (create_app D s token user params w).1
  created-Kept token user params w h = elim (create_app-Adds D s token user params w) [
    | unchanged e ↦ ap (keep others) e
    | added m new fresh (inl e) ↦ ap (keep others) e ∙ rw (h m new.username) refl
    | added m new fresh (inr e) ↦ ap (keep others) e ∙ rw (h (set_failed m) new.username) refl
  ]

  deleted-Kept :
      (i : ℤ) (user : UserId) (w : World D)
      → LeavesOutUser user
      → Kept w (delete_app D s i user w).1
  deleted-Kept i user w h = elim (delete_app_rows D s i user w) [
    | inl e ↦ ap (keep others) e
    | inr e ↦
        ap (keep others) e
        ∙ keep-map_where others (is_owned user.name i) set_finished (D.rows w.db) (λ m t.
          let owner : m.username ≡ user.name = ground (arith, eq_iff m.username user.name) in
          (h m owner, h (set_finished m) owner))
  ]

  answered_kept :
      (t : BearerToken) (f : Model → Model) (w : World D) (r : Result Status (Unit {0}))
      (rows : List Model)
      → LeavesOutToken t
      → ((m : Model) → (f m).token ≡ m.token)
      → Answered D t f w r rows
      → keep others rows ≡ keep others (D.rows w.db)
  answered_kept t f w r rows h same (updated _ _ e) =
      ap (keep others) e
      ∙ keep-map_where others (has_token t.token) f (D.rows w.db) (λ m x.
        let given : m.token ≡ t.token = (eq_iff m.token t.token).0 x in
        (h m given, h (f m) (same m ∙ given)))
  answered_kept t f w r rows h same (missing _ _ e) = ap (keep others) e
  answered_kept t f w r rows h same (failed _ e) = ap (keep others) e

  pub list_apps_world :
      (user : UserId) (q : ListApplicationsRequest) (w : World D) → (list_apps D s user q w).1 ≡ w
  unfolding list_apps
  list_apps_world user q w = ground arith

  pub get_app_world : (i : ℤ) (user : UserId) (w : World D) → (get_app D s i user w).1 ≡ w
  unfolding get_app
  get_app_world i user w = ground arith

  same-Kept : (w v : World D) → v ≡ w → Kept w v
  same-Kept w v e = ap (λ u. keep others (D.rows u.db)) e

  extracted-Kept :
      {P R : Type 0} (x : Result ℕ P) (f : R → Response)
      (g : P → World D → Result Status R × World D) (w : World D)
      → ((p : P) → Kept w (g p w).1)
      → Kept w (extracted A D s x f g w).1
  extracted-Kept (err code) f g w h = refl
  extracted-Kept (ok p) f g w h = h p

  user_api-Kept :
      (m : Method) (r : Route) (user : UserId) (req : Request Body) (w : World D)
      → LeavesOutUser user
      → Kept w (user_api A D s m r user req w).1
  unfolding user_api
  user_api-Kept get apps user req w h =
      extracted-Kept (A.list_query req.body) _ _ w (λ q. same-Kept w _ (list_apps_world user q w))
  user_api-Kept post apps user req w h =
      extracted-Kept (A.create_json req.body) _ _ w (λ p. created-Kept req.uuid user p w h)
  user_api-Kept get (app text) user req w h =
      extracted-Kept (A.app_id text) _ _ w (λ i. same-Kept w _ (get_app_world i user w))
  user_api-Kept delete (app text) user req w h =
      extracted-Kept (A.app_id text) _ _ w (λ i. deleted-Kept i user w h)
  user_api-Kept get versions user req w h = refl
  user_api-Kept m r user req w h = refl

  callback_api-Kept :
      (m : Method) (t : BearerToken) (req : Request Body) (w : World D)
      → LeavesOutToken t
      → Kept w (callback_api A D s m t req w).1
  unfolding callback_api
  callback_api-Kept post t req w h =
      extracted-Kept (A.callback_json req.body) _ _ w
        (λ p. answered_kept t (set_running p) w _ _ h (λ m. refl) (app_callback-Answered D t w p))
  callback_api-Kept delete t req w h =
      answered_kept t set_finished w _ _ h (λ m. refl) (app_callback_delete-Answered D t w)
  callback_api-Kept m t req w h = refl

  -- The test leaves out what belongs to the request: the applications of the user that the
  -- authentication methods find, and those with its bearer token.
  pub record LeavesOut (methods : List UserAuthMethod) (headers : HeaderMap) : Type 0 where
    pub user : (u : UserId) → authorize methods headers ≡ ok u → LeavesOutUser u
    pub token : (t : BearerToken) → token_authorize headers ≡ ok t → LeavesOutToken t

  with_user-Kept :
      (r : Route) (req : Request Body) (w : World D) (u : Result Status UserId)
      → ((x : UserId) → u ≡ ok x → LeavesOutUser x)
      → Kept w (with_user A D s r req w u).1
  with_user-Kept r req w (err e) h = refl
  with_user-Kept r req w (ok u) h = user_api-Kept req.method r u req w (h u refl)

  with_token-Kept :
      (req : Request Body) (w : World D) (t : Result Status BearerToken)
      → ((x : BearerToken) → t ≡ ok x → LeavesOutToken x)
      → Kept w (with_token A D s req w t).1
  with_token-Kept req w (err e) h = refl
  with_token-Kept req w (ok t) h = callback_api-Kept req.method t req w (h t refl)

  routed-Kept :
      (methods : List UserAuthMethod) (r : Option Route) (req : Request Body) (w : World D)
      → LeavesOut methods req.headers
      → Kept w (routed A D s methods r req w).1
  unfolding routed
  routed-Kept methods none req w h = refl
  routed-Kept methods (some callback) req w h =
      with_token-Kept req w (token_authorize req.headers) h.token
  routed-Kept methods (some apps) req w h =
      with_user-Kept apps req w (authorize methods req.headers) h.user
  routed-Kept methods (some (app x)) req w h =
      with_user-Kept (app x) req w (authorize methods req.headers) h.user
  routed-Kept methods (some versions) req w h =
      with_user-Kept versions req w (authorize methods req.headers) h.user

  get_router-Kept :
      (methods : List UserAuthMethod) (req : Request Body) (w : World D)
      → LeavesOut methods req.headers
      → Kept w (get_router A D s methods req w).1
  unfolding get_router
  get_router-Kept methods req w h = routed-Kept methods (A.matched req.path) req w h

  -- No request, whatever its method, path and body, adds, changes or removes an application that
  -- is neither its user's nor has its token: those that a test accepts, which accepts no
  -- application of the user and none with the token, stay the same list.
  pub call_keeps_others :
      (from_str : List ℕ → Bool) (world : Meanwhile) (methods : List UserAuthMethod)
      (req : Request Body) (w : World D)
      → LeavesOut methods req.headers
      → keep others (D.rows (call A D s from_str world methods req w).1.db)
        ≡ keep others (D.rows w.db)
  call_keeps_others from_str world methods req w h = elim (Bool-cases (is_proxied req.path)) [
    | inl p ↦ unfold call in rw p refl
    | inr p ↦ unfold call in rw p (get_router-Kept methods req w h)
  ]
