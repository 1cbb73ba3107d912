-- ===== src/Routes.antt =====
-- server/src/routes.rs: the handlers of the REST API. A handler changes the database and the
-- cache of upstream connections, and answers with a value or with a status.
pub mod Api
pub mod Owner
pub mod Callback
pub mod Create
pub mod Listing
pub mod Named
pub mod Selection
pub mod Messages
pub mod Bag
use spark_plug.Common.{
  ℕ, zero, suc, ℤ, String, Bool, true, false, ◌&&◌, ◌||◌, Option, none, some, List, [], ◌∷◌, map,
  ◌==◌, string_eq, int_eq, if◌then◌else◌, unwrap_or, is_some, Result, ok, err, le_int, ok_or,
}
use spark_plug.Map.{Map}
use spark_plug.Text.{split, trim}
use spark_plug.Application.{
  State, launching, running, failed, finished, state_eq, to_value, try_from_value, DateTime, Model,
}
use spark_plug.Database.{Database, DbResult, NewModel, has_id}
use spark_plug.Http.{Status, bad_request, not_found, internal_server_error}
use spark_plug.Auth.{UserId, BearerToken}
use spark_plug.Config.{ProxyConfig, render_ui_url, render_log_url}
use spark_plug.Launcher.Names.{IoError}
use spark_plug.Proxy.Cache.{Cache, has_token, invalidate}
use spark_plug.Routes.Api.{
  CreateApplicationRequest, ListApplicationsRequest, ApplicationInfo, ApplicationCallbackRequest,
  Launcher, AppState, World, info, set_failed, set_finished, set_running, is_owned, is_launching,
  state_filter, is_in, has_state, is_after, is_before, is_listed,
}

module _ (D : Database) where
  abbrev pub Handler : Type 0 → Type 0
  Handler A = World D → Result Status A × World D

  infixl 5 ◌>>=◌ ◌>>◌
  abbrev ◌>>=◌ : {A B : Type 0} → Handler A → (A → Handler B) → Handler B
  ◌>>=◌ m f w = let (r, w') = m w in elim r [ ok a ↦ f a w' | err e ↦ (err e, w') ]

  abbrev ◌>>◌ : {B : Type 0} → Handler (Unit {0}) → Handler B → Handler B
  m >> k = m >>= λ _. k

  abbrev lift : {A : Type 0} → Result Status A → Handler A
  lift r w = (r, w)

  abbrev or_500 : {E A : Type 0} → Result E A → Result Status A
  or_500 (ok a) = ok a
  or_500 (err e) = err internal_server_error

  -- A query, and a statement; a database error is answered with 500.
  abbrev query : {A : Type 0} → (D.Db → DbResult A) → Handler A
  query q w = (or_500 (q w.db), w)

  abbrev execute : {A : Type 0} → (D.Db → DbResult A × D.Db) → Handler A
  execute statement w = let (r, db') = statement w.db in (or_500 r, record w { db = db' })

  -- `state.upstreams.invalidate`, and the spawned task that waits for a launch.
  abbrev forget : String → Handler (Unit {0})
  forget token w = (ok tt, record w { upstreams = invalidate token w.upstreams })

  abbrev watch : ℤ → Handler (Unit {0})
  watch app_id w = (ok tt, record w { watched = app_id ∷ w.watched })

  abbrev affected : ℕ → Result Status (Unit {0})
  affected zero = err not_found
  affected (suc n) = ok tt

  -- The two arms of the match on the launch; the error of the update is only logged.
  unfoldable pub after_launch :
      AppState → Model → Result IoError (Unit {0}) → Handler ApplicationInfo
  unfolding info
  after_launch s res (ok child) = do watch res.id; lift (ok (info s res))
  after_launch s res (err e) = λ w.
      let (r, db') = D.update res.id set_failed w.db in
      (err internal_server_error, record w { db = db' })

  -- `token` is the new random UUID.
  unfoldable pub create_app :
      AppState → String → UserId → CreateApplicationRequest → Handler ApplicationInfo
  unfolding after_launch
  create_app s token user params = do
    res ← execute (
        D.insert
          (record { username = user.name; name = params.name; state = launching; token = token }))
    after_launch s res (
        s.launcher.launch params.version res.id params.name user.name token
          (unwrap_or params.config []) params.python_packages)

  -- The task that `create_app` spawns, when the launch's task has ended.
  unfoldable pub launch_ended : ℤ → D.Db → D.Db
  launch_ended app_id db = (D.update_many set_failed (is_launching app_id) db).1

  unfoldable pub get_app : AppState → ℤ → UserId → Handler ApplicationInfo
  unfolding info
  get_app s app_id user = do
    found ← query (D.find_one (is_owned user.name app_id))
    app ← lift (ok_or found not_found)
    lift (ok (info s app))

  unfoldable pub list_apps :
      AppState → UserId → ListApplicationsRequest → Handler (List ApplicationInfo)
  unfolding info state_filter
  list_apps s user params = do
    states ← lift (state_filter params.state)
    apps ←
        query
          (D.find_all (is_listed user.name states params.created_at_after params.created_at_before))
    lift (ok (map (info s) apps))

  abbrev stop : AppState → Option String → String → Result Status (Unit {0})
  stop s none token = ok tt
  stop s (some address) token = or_500 (s.send_session_message address token "stop")

  unfoldable pub delete_app : AppState → ℤ → UserId → Handler (Unit {0})
  delete_app s app_id user = do
    found ← query (D.find_one (is_owned user.name app_id))
    app ← lift (ok_or found not_found)
    n ← execute (D.update_many set_finished (is_owned user.name app_id))
    forget app.token
    lift (stop s app.address app.token)

  unfoldable pub app_callback : BearerToken → ApplicationCallbackRequest → Handler (Unit {0})
  app_callback token params = do
    n ← execute (D.update_many (set_running params) (has_token token.token))
    lift (affected n)

  unfoldable pub app_callback_delete : BearerToken → Handler (Unit {0})
  app_callback_delete token = do
    n ← execute (D.update_many set_finished (has_token token.token))
    lift (affected n)
    forget token.token

unfoldable pub list_versions : AppState → List String
list_versions s = s.launcher.get_versions
