-- ===== src/Lifecycle/Reach.antt =====
-- Every change of the table and of the cache, in any order, and what holds after all of them.
use spark_plug.Common.{
  ℕ, ℤ, String, ◌≡◌, refl, Option, List, arith, Result, inl, inr, not, string_eq, int_eq, ok, err,
}
use spark_plug.Application.{Model, DateTime}
use spark_plug.Database.{Database, has_id}
use spark_plug.Auth.{UserId, BearerToken}
use spark_plug.Proxy.Cache.{Cache, has_token}
use spark_plug.Proxy.Upstream.{mark_failed, mark_application_failed}
use spark_plug.Routes.Api.{
  AppState, World, CreateApplicationRequest, ApplicationCallbackRequest, set_failed, set_finished,
  set_running, is_owned, is_launching,
}
use spark_plug.Routes.{create_app, launch_ended, delete_app, app_callback, app_callback_delete}
use spark_plug.Routes.Create.{unchanged, added, create_app-Adds}
use spark_plug.Routes.Owner.{delete_app_rows}
use spark_plug.Routes.Callback.{
  Answered, updated, missing, failed as faulted, app_callback-Answered,
  app_callback_delete-Answered,
}
use spark_plug.Server.{Health, prune, prune_at, is_pruned, check, cutoff_at}
use spark_plug.Server.Check.{check_keeps}
use spark_plug.Database.Keeps.{update_many_keeps, delete_many_keeps}
use spark_plug.Http.{Status}
use spark_plug.Lifecycle.Rows.{
  IsSettled, IsValid, map_where-IsValid, keep-IsValid, set_finished-IsSettled,
  mark_failed-IsSettled, set_running-IsSettled, set_failed-IsSettled, inserted-IsSettled,
}

module _ (D : Database) where
  -- All that changes the table: the four handlers that do, the task that `create_app` spawns, a
  -- session that gives up its upstream, and the two commands. The cache may change at any time.
  pub data Step (w : World D) : World D → Type 0 where
    created :
        (s : AppState) (token : String) (user : UserId) (params : CreateApplicationRequest)
        → Step w (create_app D s token user params w).1
    launch_over : (app_id : ℤ) → Step w (record w { db = launch_ended D app_id w.db })
    deleted : (s : AppState) (app_id : ℤ) (user : UserId) → Step w (delete_app D s app_id user w).1
    called_back :
        (token : BearerToken) (params : ApplicationCallbackRequest)
        → Step w (app_callback D token params w).1
    ended : (token : BearerToken) → Step w (app_callback_delete D token w).1
    given_up :
        (token : String) → Step w (record w { db = (mark_application_failed D token w.db).1 })
    pruned :
        (from_timestamp : ℤ → Option DateTime) (now : Result String ℕ) (older_than_seconds : ℕ)
        → Step w (record w { db = (prune D from_timestamp now older_than_seconds w.db).1 })
    checked : (health : Health) → Step w (record w { db = (check D health w.db).1 })
    proxied : (c : Cache) → Step w (record w { upstreams = c })

  pub data Reach (w : World D) : World D → Type 0 where
    here : Reach w w
    next : {v u : World D} → Reach w v → Step v u → Reach w u

  abbrev Valid : D.Db → Type 0
  Valid db = IsValid (D.rows db)

  create_app-IsValid :
      (s : AppState) (token : String) (user : UserId) (params : CreateApplicationRequest)
      (w : World D)
      → Valid w.db
      → Valid (create_app D s token user params w).1.db
  create_app-IsValid s token user params w h = elim (create_app-Adds D s token user params w) [
    | unchanged e ↦ rw e h
    | added m new fresh (inl e) ↦ rw e (record {
      settled = ((inserted-IsSettled _ m refl new).0, h.settled);
      unique = (fresh, h.unique);
    })
    | added m new fresh (inr e) ↦ rw e (record {
      settled = ((inserted-IsSettled _ m refl new).1, h.settled);
      unique = (fresh, h.unique);
    })
  ]

  delete_app-IsValid :
      (s : AppState) (app_id : ℤ) (user : UserId) (w : World D)
      → Valid w.db
      → Valid (delete_app D s app_id user w).1.db
  delete_app-IsValid s app_id user w h = elim (delete_app_rows D s app_id user w) [
    | inl e ↦ rw e h
    | inr e ↦ rw e (
        map_where-IsValid (is_owned user.name app_id) set_finished (D.rows w.db) (λ m. refl)
          (λ m _ _. set_finished-IsSettled m) h)
  ]

  Answered-IsValid :
      (token : BearerToken) (f : Model → Model) (w : World D) (r : Result Status (Unit {0}))
      (rows : List Model)
      → ((m : Model) → (f m).id ≡ m.id)
      → ((m : Model) → IsSettled (f m))
      → Answered D token f w r rows
      → Valid w.db
      → IsValid rows
  Answered-IsValid token f w r rows same step (updated _ _ e) h =
      rw e (map_where-IsValid (has_token token.token) f (D.rows w.db) same (λ m _ _. step m) h)
  Answered-IsValid token f w r rows same step (missing _ _ e) h = rw e h
  Answered-IsValid token f w r rows same step (faulted _ e) h = rw e h

  launch_ended-IsValid : (app_id : ℤ) (db : D.Db) → Valid db → Valid (launch_ended D app_id db)
  unfolding launch_ended
  launch_ended-IsValid app_id db = update_many_keeps D IsValid db set_failed (is_launching app_id) (
      map_where-IsValid (is_launching app_id) set_failed (D.rows db) (λ m. refl)
        (λ m h e. set_failed-IsSettled m h (ground arith)))

  mark_application_failed-IsValid :
      (token : String) (db : D.Db) → Valid db → Valid (mark_application_failed D token db).1
  unfolding mark_application_failed
  mark_application_failed-IsValid token db =
      update_many_keeps D IsValid db mark_failed (has_token token) (
        map_where-IsValid (has_token token) mark_failed (D.rows db) (λ m. refl)
          (λ m _ _. mark_failed-IsSettled m))

  prune_at-IsValid : (o : Result String DateTime) (db : D.Db) → Valid db → Valid (prune_at D o db).1
  unfolding prune_at
  prune_at-IsValid (err x) db h = h
  prune_at-IsValid (ok cutoff) db h =
      delete_many_keeps D IsValid db (is_pruned cutoff)
        (keep-IsValid (λ m. not (is_pruned cutoff m)) (D.rows db)) h

  prune-IsValid :
      (from_timestamp : ℤ → Option DateTime) (now : Result String ℕ) (older : ℕ) (db : D.Db)
      → Valid db
      → Valid (prune D from_timestamp now older db).1
  unfolding prune
  prune-IsValid from_timestamp now older db =
      prune_at-IsValid (cutoff_at from_timestamp now older) db

  check-IsValid : (health : Health) (db : D.Db) → Valid db → Valid (check D health db).1
  check-IsValid health db =
      check_keeps D IsValid
        (λ i rows.
          map_where-IsValid (has_id i) mark_failed rows (λ m. refl)
            (λ m _ _. mark_failed-IsSettled m))
        health db

  pub Step-IsValid : {w v : World D} → Step w v → Valid w.db → Valid v.db
  Step-IsValid {w} (created s token user params) = create_app-IsValid s token user params w
  Step-IsValid {w} (launch_over app_id) = launch_ended-IsValid app_id w.db
  Step-IsValid {w} (deleted s app_id user) = delete_app-IsValid s app_id user w
  Step-IsValid {w} (called_back token params) =
      Answered-IsValid token (set_running params) w _ _ (λ m. refl)
        (λ m. set_running-IsSettled params m) (app_callback-Answered D token w params)
  Step-IsValid {w} (ended token) =
      Answered-IsValid token set_finished w _ _ (λ m. refl) (λ m. set_finished-IsSettled m)
        (app_callback_delete-Answered D token w)
  Step-IsValid {w} (given_up token) = mark_application_failed-IsValid token w.db
  Step-IsValid {w} (pruned from_timestamp now older) = prune-IsValid from_timestamp now older w.db
  Step-IsValid {w} (checked health) = check-IsValid health w.db
  Step-IsValid (proxied c) = λ h. h

  -- After any sequence of requests, launches that end, sessions that give up and maintenance
  -- commands, from a table where it holds (an empty one, say): a row has an address exactly if it
  -- is RUNNING, and no two rows have the same id.
  pub Reach-IsValid : (w v : World D) → Reach w v → IsValid (D.rows w.db) → IsValid (D.rows v.db)
  Reach-IsValid w _ here h = h
  Reach-IsValid w _ (next r st) h = Step-IsValid st (Reach-IsValid w _ r h)
