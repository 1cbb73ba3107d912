-- ===== src/Lifecycle/Statements.antt =====
-- The statements that the server issues to its database, one by one: those of different requests,
-- tasks and commands in any order, so a statement of one may come between two of another.
use mathlib.Core.Path.{subst}
use spark_plug.Common.{
  ℤ, String, ◌≡◌, refl, Bool, none, some, [], arith, Result, ok, err, Result-cases, inl, inr, sym,
  unwrap_or,
}
use spark_plug.Application.{Model, DateTime, launching}
use spark_plug.Database.{Database, NewModel}
use spark_plug.Auth.{UserId, BearerToken}
use spark_plug.Proxy.Cache.{has_token}
use spark_plug.Proxy.Upstream.{mark_failed, mark_application_failed}
use spark_plug.Routes.Api.{
  AppState, World, CreateApplicationRequest, ApplicationCallbackRequest, set_failed, set_finished,
  set_running, is_owned,
}
use spark_plug.Routes.{
  create_app, after_launch, launch_ended, delete_app, app_callback, app_callback_delete,
}
use spark_plug.Launcher.Names.{IoError}
use spark_plug.Server.{Health, prune, prune_at, is_pruned, check, cutoff_at}
use spark_plug.Server.Check.{check_steps}
use spark_plug.Lifecycle.Reach.{
  Step, created, launch_over, deleted, called_back, ended, given_up, pruned, checked, proxied,
}

module _ (D : Database) where
  pub data Statement (db : D.Db) : D.Db → Type 0 where
    inserted : (new : NewModel) → new.state ≡ launching → Statement db (D.insert new db).1
    not_launched : (i : ℤ) → Statement db (D.update i set_failed db).1
    launch_ended_of : (i : ℤ) → Statement db (launch_ended D i db)
    finished_where : (p : Model → Bool) → Statement db (D.update_many set_finished p db).1
    reported :
        (params : ApplicationCallbackRequest) (token : String)
        → Statement db (D.update_many (set_running params) (has_token token) db).1
    gave_up : (token : String) → Statement db (mark_application_failed D token db).1
    unhealthy : (i : ℤ) → Statement db (D.update i mark_failed db).1
    pruned_at : (cutoff : DateTime) → Statement db (D.delete_many (is_pruned cutoff) db).1

  pub data Statements (db : D.Db) : D.Db → Type 0 where
    here : Statements db db
    further : {b c : D.Db} → Statements db b → Statement b c → Statements db c

  one : {a b : D.Db} → Statement a b → Statements a b
  one s = further here s

  -- A statement, seen at an equal database.
  one_at : {a b c : D.Db} → Statement a b → c ≡ b → Statements a c
  one_at {a} s e = subst (Statements a) (sym e) (one s)

  pub trans : {a b c : D.Db} → Statements a b → Statements b c → Statements a c
  trans p here = p
  trans p (further q s) = further (trans p q) s

  -- What follows the launch of `create_app`, from any later database.
  pub after_launch-Statements :
      (s : AppState) (res : Model) (r : Result IoError (Unit {0})) (w : World D)
      → Statements w.db (after_launch D s res r w).1.db
  unfolding after_launch
  after_launch-Statements s res (ok u) w = here
  after_launch-Statements s res (err e) w = one (not_launched res.id)

  -- The row that `create_app` inserts.
  abbrev new : String → UserId → CreateApplicationRequest → NewModel
  new token user params = record {
    username = user.name;
    name = params.name;
    state = launching;
    token = token;
  }

  abbrev launched :
      AppState → String → UserId → CreateApplicationRequest → Model → Result IoError (Unit {0})
  launched s token user params res =
      s.launcher.launch params.version res.id params.name user.name token
        (unwrap_or params.config []) params.python_packages

  created_at :
      (s : AppState) (token : String) (user : UserId) (params : CreateApplicationRequest)
      (w : World D) (m : Model)
      → (D.insert (new token user params) w.db).0 ≡ ok m
      → (create_app D s token user params w).1.db
        ≡ (after_launch D s m
            (launched s token user params m)
            (record w { db = (D.insert (new token user params) w.db).1 })).1.db
  unfolding create_app
  created_at s token user params w m e = ground arith

  not_created_at :
      (s : AppState) (token : String) (user : UserId) (params : CreateApplicationRequest)
      (w : World D) (x : String)
      → (D.insert (new token user params) w.db).0 ≡ err x
      → (create_app D s token user params w).1.db ≡ (D.insert (new token user params) w.db).1
  unfolding create_app
  not_created_at s token user params w x e = ground arith

  create_app-Statements :
      (s : AppState) (token : String) (user : UserId) (params : CreateApplicationRequest)
      (w : World D)
      → Statements w.db (create_app D s token user params w).1.db
  create_app-Statements s token user params w =
      elim (Result-cases (D.insert (new token user params) w.db).0) [
        | inl (m, e) ↦ trans (one (inserted (new token user params) refl)) (
            subst (Statements _) (sym (created_at s token user params w m e))
              (after_launch-Statements s m (launched s token user params m) _))
        | inr (x, e) ↦
            one_at (inserted (new token user params) refl)
              (not_created_at s token user params w x e)
      ]

  deleted_at :
      (s : AppState) (app_id : ℤ) (user : UserId) (w : World D) (m : Model)
      → D.find_one (is_owned user.name app_id) w.db ≡ ok (some m)
      → (delete_app D s app_id user w).1.db
        ≡ (D.update_many set_finished (is_owned user.name app_id) w.db).1
  unfolding delete_app
  deleted_at s app_id user w m e = ground arith

  not_deleted_at :
      (s : AppState) (app_id : ℤ) (user : UserId) (w : World D)
      → ((m : Model) → D.find_one (is_owned user.name app_id) w.db ≡ ok (some m) → ⊥)
      → (delete_app D s app_id user w).1.db ≡ w.db
  unfolding delete_app
  not_deleted_at s app_id user w e =
      elim (Result-cases (D.find_one (is_owned user.name app_id) w.db)) [
        | inr (x, f) ↦ ground arith
        | inl (none, f) ↦ ground arith
        | inl (some m, f) ↦ absurd (e m f)
      ]

  delete_app-Statements :
      (s : AppState) (app_id : ℤ) (user : UserId) (w : World D)
      → Statements w.db (delete_app D s app_id user w).1.db
  delete_app-Statements s app_id user w =
      elim (Result-cases (D.find_one (is_owned user.name app_id) w.db)) [
        | inl (some m, f) ↦
            one_at (finished_where (is_owned user.name app_id)) (deleted_at s app_id user w m f)
        | inl (none, f) ↦
            subst (Statements w.db) (sym (not_deleted_at s app_id user w (λ m g. cc))) here
        | inr (x, f) ↦
            subst (Statements w.db) (sym (not_deleted_at s app_id user w (λ m g. cc))) here
      ]

  callback_db :
      (token : BearerToken) (params : ApplicationCallbackRequest) (w : World D)
      → (app_callback D token params w).1.db
        ≡ (D.update_many (set_running params) (has_token token.token) w.db).1
  unfolding app_callback
  callback_db token params w = ground arith

  ended_db :
      (token : BearerToken) (w : World D)
      → (app_callback_delete D token w).1.db
        ≡ (D.update_many set_finished (has_token token.token) w.db).1
  unfolding app_callback_delete
  ended_db token w = ground arith

  prune_at-Statements : (o : Result String DateTime) (db : D.Db) → Statements db (prune_at D o db).1
  unfolding prune_at
  prune_at-Statements (err x) db = here
  prune_at-Statements (ok cutoff) db = one (pruned_at cutoff)

  check-Statements : (health : Health) (db : D.Db) → Statements db (check D health db).1
  check-Statements health db =
      check_steps D (Statements db) (λ i later p. further p (unhealthy i)) health db here

  -- Each change of the table by a request, a task or a command is a sequence of these statements.
  pub Step-Statements : {w v : World D} → Step D w v → Statements w.db v.db
  unfolding prune
  Step-Statements {w} (created s token user params) = create_app-Statements s token user params w
  Step-Statements {w} (launch_over app_id) = one (launch_ended_of app_id)
  Step-Statements {w} (deleted s app_id user) = delete_app-Statements s app_id user w
  Step-Statements {w} (called_back token params) =
      one_at (reported params token.token) (callback_db token params w)
  Step-Statements {w} (ended token) =
      one_at (finished_where (has_token token.token)) (ended_db token w)
  Step-Statements {w} (given_up token) = one (gave_up token)
  Step-Statements {w} (pruned from_timestamp now older) =
      prune_at-Statements (cutoff_at from_timestamp now older) w.db
  Step-Statements {w} (checked health) = check-Statements health w.db
  Step-Statements (proxied c) = here
