-- ===== src/Routes/Callback.antt =====
-- The callbacks of a driver: `app_callback` and `app_callback_delete` of server/src/routes.rs.
use spark_plug.Common.{
  ℕ, zero, suc, ℤ, String, ◌≡◌, ◌≢◌, refl, true, false, none, List, [], ◌∷◌, arith, string_eq,
  eq_refl, Result, ok, err, map_where, count_where, All, map_where-of-none, none_of_count, sym, ◌∙◌,
  ap,
}
use spark_plug.Map.{get, get-remove}
use spark_plug.Application.{Model, running}
use spark_plug.Database.{Database, DbResult}
use spark_plug.Http.{Status, not_found, internal_server_error}
use spark_plug.Auth.{UserId, BearerToken}
use spark_plug.Proxy.Cache.{invalidate, has_token}
use spark_plug.Routes.Api.{AppState, World, ApplicationCallbackRequest, set_running, set_finished}
use spark_plug.Routes.{app_callback, app_callback_delete, delete_app}

module _ (D : Database) (token : BearerToken) (f : Model → Model) (w : World D) where
  abbrev statement : DbResult ℕ × D.Db
  statement = D.update_many f (has_token token.token) w.db

  -- What the answer to an update by token says of the rows: 200 where a row has the token and all
  -- such rows were updated, 404 where no row has it, 500 where the statement failed.
  pub data Answered (r : Result Status (Unit {0})) (rows : List Model) : Type 0 where
    updated :
        r ≡ ok tt
        → count_where (has_token token.token) (D.rows w.db) ≢ 0
        → rows ≡ map_where (has_token token.token) f (D.rows w.db)
        → Answered r rows
    missing :
        r ≡ err not_found
        → All (λ m. has_token token.token m ≡ false) (D.rows w.db)
        → rows ≡ D.rows w.db
        → Answered r rows
    failed : r ≡ err internal_server_error → rows ≡ D.rows w.db → Answered r rows

  abbrev answer : DbResult ℕ → Result Status (Unit {0})
  answer (ok zero) = err not_found
  answer (ok (suc n)) = ok tt
  answer (err e) = err internal_server_error

  answer-Answered : Answered (answer statement.0) (D.rows statement.1)
  answer-Answered = go statement.0 refl
    where
      go : (r : DbResult ℕ) → statement.0 ≡ r → Answered (answer r) (D.rows statement.1)
      go (err x) h = failed refl (D.update_many_err f (has_token token.token) w.db x h)
      go (ok zero) h =
          let (rows, n) = D.update_many_ok f (has_token token.token) w.db zero h in
          let unmatched = none_of_count (has_token token.token) f (D.rows w.db) (sym n) in
          missing refl unmatched
            (rows ∙ map_where-of-none (has_token token.token) f (D.rows w.db) unmatched)
      go (ok (suc k)) h =
          let (rows, n) = D.update_many_ok f (has_token token.token) w.db (suc k) h in
          updated refl (λ z. omega arith) rows

module _ (D : Database) (token : BearerToken) (w : World D) where
  callback_reply :
      (params : ApplicationCallbackRequest)
      → (app_callback D token params w).0
        ≡ answer D token (set_running params) w (statement D token (set_running params) w).0
  unfolding app_callback
  callback_reply params = ground arith

  callback_db :
      (params : ApplicationCallbackRequest)
      → (app_callback D token params w).1.db ≡ (statement D token (set_running params) w).1
  unfolding app_callback
  callback_db params = ground arith

  -- The driver's callback answers 200 where some row has its token, and then every such row is
  -- RUNNING at its address; 404 where none has; 500 where the statement fails. In the last two
  -- cases no row changes.
  pub app_callback-Answered :
      (params : ApplicationCallbackRequest)
      → Answered D token
          (set_running params)
          w
          (app_callback D token params w).0
          (D.rows (app_callback D token params w).1.db)
  app_callback-Answered params =
      rw (callback_reply params, callback_db params)
        (answer-Answered D token (set_running params) w)

  delete_reply :
      (app_callback_delete D token w).0
      ≡ answer D token set_finished w (statement D token set_finished w).0
  unfolding app_callback_delete
  delete_reply = ground arith

  delete_db : (app_callback_delete D token w).1.db ≡ (statement D token set_finished w).1
  unfolding app_callback_delete
  delete_db = ground arith

  -- So with the callback at the driver's end, whose rows become FINISHED with no address.
  pub app_callback_delete-Answered :
      Answered D token set_finished w
        (app_callback_delete D token w).0
        (D.rows (app_callback_delete D token w).1.db)
  app_callback_delete-Answered =
      rw (delete_reply, delete_db) (answer-Answered D token set_finished w)

  -- It answers 200 where its statement succeeds and some row has its token.
  pub app_callback_delete-succeeds :
      (n : ℕ)
      → (D.update_many set_finished (has_token token.token) w.db).0 ≡ ok n
      → count_where (has_token token.token) (D.rows w.db) ≢ 0
      → (app_callback_delete D token w).0 ≡ ok tt
  app_callback_delete-succeeds zero e k =
      absurd (k (sym (D.update_many_ok set_finished (has_token token.token) w.db 0 e).1))
  app_callback_delete-succeeds (suc n) e k = delete_reply ∙ ap (answer D token set_finished w) e

  forgotten :
      (app_callback_delete D token w).0 ≡ ok tt
      → (app_callback_delete D token w).1.upstreams ≡ invalidate token.token w.upstreams
  unfolding app_callback_delete
  forgotten e = ground arith

  -- The callback at the driver's end, where it answers 200, forgets the session's connection.
  pub app_callback_delete-forgets :
      (app_callback_delete D token w).0 ≡ ok tt
      → get (app_callback_delete D token w).1.upstreams.connections token.token ≡ none
  app_callback_delete-forgets e = rw (forgotten e) (unfold invalidate in simp (get-remove, eq_refl))

has_running :
    (t : String) (params : ApplicationCallbackRequest) (ms : List Model)
    → All
        (λ m. has_token t m ≡ true → m.state ≡ running)
        (map_where (has_token t) (set_running params) ms)
has_running t params [] = tt
has_running t params (m ∷ ms) = (ground arith, has_running t params ms)

-- Whatever the state of an application, FINISHED by its user's DELETE included, a later callback
-- with its token that answers 200 leaves it RUNNING.
pub callback_revives :
    (D : Database) (s : AppState) (app_id : ℤ) (user : UserId) (token : BearerToken)
    (params : ApplicationCallbackRequest) (w : World D)
    → (app_callback D token params (delete_app D s app_id user w).1).0 ≡ ok tt
    → All
        (λ m. has_token token.token m ≡ true → m.state ≡ running)
        (D.rows (app_callback D token params (delete_app D s app_id user w).1).1.db)
callback_revives D s app_id user token params w e =
    elim (app_callback-Answered D token (delete_app D s app_id user w).1 params) [
      | updated _ _ rows ↦ rw rows (has_running token.token params _)
      | missing r _ _ ↦ cc
      | failed r _ ↦ cc
    ]
