-- ===== src/Lifecycle/Refines.antt =====
-- The server refines the registry of sessions: each of its steps changes each session as the
-- registry allows.
use spark_plug.Common.{
  ℕ, ℤ, String, ◌≡◌, refl, Bool, not, Option, List, Result, inl, inr, int_eq, ok, err,
}
use spark_plug.Application.{Model, DateTime}
use spark_plug.Database.{Database, has_id}
use spark_plug.Database.Keeps.{update_many_keeps, delete_many_keeps}
use spark_plug.Http.{Status}
use spark_plug.Auth.{UserId, BearerToken}
use spark_plug.Proxy.Cache.{has_token}
use spark_plug.Proxy.Upstream.{mark_failed, mark_application_failed}
use spark_plug.Routes.Api.{
  AppState, World, CreateApplicationRequest, set_failed, set_finished, set_running, is_owned,
  is_launching,
}
use spark_plug.Routes.{create_app, launch_ended, delete_app}
use spark_plug.Routes.Create.{unchanged, added, create_app-Adds}
use spark_plug.Routes.Owner.{delete_app_rows}
use spark_plug.Routes.Callback.{
  Answered, updated, missing, failed as faulted, app_callback-Answered,
  app_callback_delete-Answered,
}
use spark_plug.Server.{Health, prune, prune_at, is_pruned, check, cutoff_at}
use spark_plug.Server.Check.{check_keeps}
use spark_plug.Lifecycle.Rows.{IsValid}
use spark_plug.Lifecycle.Registry.{view, ◌↝◌, ◌⟶◌, same_session, change_of_kept, no_change, trans}
use spark_plug.Lifecycle.Moves.{
  Moves, set_finished-Moves, set_failed-Moves, mark_failed-Moves, set_running-Moves, born_of_new,
  stillborn_of_new, pruned_over, view_map_where, view_cons, view_keep,
}
use spark_plug.Lifecycle.Reach.{
  Step, created, launch_over, deleted, called_back, ended, given_up, pruned, checked, proxied,
  Reach, Reach-IsValid,
}

-- Every session of the first table has changed, if at all, to what the second has of it.
abbrev Stays : List Model → List Model → Type 0
Stays rows rows' = (i : ℤ) → view rows i ↝ view rows' i

-- Every place of the first table has had one change at most.
abbrev pub Evolves : List Model → List Model → Type 0
Evolves rows rows' = (i : ℤ) → view rows i ⟶ view rows' i

Evolves-refl : (rows : List Model) → Evolves rows rows
Evolves-refl rows i = no_change (view rows i)

Evolves-of : (rows rows' : List Model) → Stays rows rows' → Evolves rows rows'
Evolves-of rows rows' h i = change_of_kept _ _ (h i)

module _ (D : Database) where
  created-Evolves :
      (s : AppState) (token : String) (user : UserId) (params : CreateApplicationRequest)
      (w : World D)
      → Evolves (D.rows w.db) (D.rows (create_app D s token user params w).1.db)
  created-Evolves s token user params w = elim (create_app-Adds D s token user params w) [
    | unchanged e ↦ rw e (Evolves-refl _)
    | added m new fresh (inl e) ↦ rw e (view_cons m (D.rows w.db) fresh (born_of_new _ m refl new))
    | added m new fresh (inr e) ↦
        rw e (view_cons (set_failed m) (D.rows w.db) fresh (stillborn_of_new m))
  ]

  deleted-Evolves :
      (s : AppState) (app_id : ℤ) (user : UserId) (w : World D)
      → Evolves (D.rows w.db) (D.rows (delete_app D s app_id user w).1.db)
  deleted-Evolves s app_id user w = elim (delete_app_rows D s app_id user w) [
    | inl e ↦ rw e (Evolves-refl _)
    | inr e ↦ rw e (
        Evolves-of _ _ (
          view_map_where (is_owned user.name app_id) set_finished (D.rows w.db) (λ m. refl)
            set_finished-Moves))
  ]

  answered-Evolves :
      (token : BearerToken) (f : Model → Model) (w : World D) (r : Result Status (Unit {0}))
      (rows : List Model)
      → ((m : Model) → (f m).id ≡ m.id)
      → Moves f
      → Answered D token f w r rows
      → Evolves (D.rows w.db) rows
  answered-Evolves token f w r rows same moves (updated _ _ e) =
      rw e (Evolves-of _ _ (view_map_where (has_token token.token) f (D.rows w.db) same moves))
  answered-Evolves token f w r rows same moves (missing _ _ e) = rw e (Evolves-refl _)
  answered-Evolves token f w r rows same moves (faulted _ e) = rw e (Evolves-refl _)

  update_many-Evolves :
      (f : Model → Model) (p : Model → Bool) (db : D.Db)
      → ((m : Model) → (f m).id ≡ m.id)
      → Moves f
      → Evolves (D.rows db) (D.rows (D.update_many f p db).1)
  update_many-Evolves f p db same moves =
      update_many_keeps D (Evolves (D.rows db)) db f p
        (λ h. Evolves-of _ _ (view_map_where p f (D.rows db) same moves)) (Evolves-refl _)

  launch_ended-Evolves :
      (app_id : ℤ) (db : D.Db) → Evolves (D.rows db) (D.rows (launch_ended D app_id db))
  unfolding launch_ended
  launch_ended-Evolves app_id db =
      update_many-Evolves set_failed (is_launching app_id) db (λ m. refl) set_failed-Moves

  given_up-Evolves :
      (token : String) (db : D.Db)
      → Evolves (D.rows db) (D.rows (mark_application_failed D token db).1)
  unfolding mark_application_failed
  given_up-Evolves token db =
      update_many-Evolves mark_failed (has_token token) db (λ m. refl) mark_failed-Moves

  prune_at-Evolves :
      (o : Result String DateTime) (db : D.Db)
      → IsValid (D.rows db)
      → Evolves (D.rows db) (D.rows (prune_at D o db).1)
  unfolding prune_at
  prune_at-Evolves (err x) db h = Evolves-refl _
  prune_at-Evolves (ok cutoff) db h =
      delete_many_keeps D (Evolves (D.rows db)) db (is_pruned cutoff)
        (λ q. view_keep (λ m. not (is_pruned cutoff m)) (D.rows db) h.unique (pruned_over cutoff))
        (Evolves-refl _)

  pruned-Evolves :
      (from_timestamp : ℤ → Option DateTime) (now : Result String ℕ) (older : ℕ) (db : D.Db)
      → IsValid (D.rows db)
      → Evolves (D.rows db) (D.rows (prune D from_timestamp now older db).1)
  unfolding prune
  pruned-Evolves from_timestamp now older db =
      prune_at-Evolves (cutoff_at from_timestamp now older) db

  check-Stays : (health : Health) (db : D.Db) → Stays (D.rows db) (D.rows (check D health db).1)
  check-Stays health db =
      check_keeps D (Stays (D.rows db))
        (λ j rows h i.
          trans _ _ _ (h i)
            (view_map_where (has_id j) mark_failed rows (λ m. refl) mark_failed-Moves i))
        health db (λ i. same_session _)

  Step-Evolves :
      {w v : World D} → Step D w v → IsValid (D.rows w.db) → Evolves (D.rows w.db) (D.rows v.db)
  Step-Evolves {w} (created s token user params) h = created-Evolves s token user params w
  Step-Evolves {w} (launch_over app_id) h = launch_ended-Evolves app_id w.db
  Step-Evolves {w} (deleted s app_id user) h = deleted-Evolves s app_id user w
  Step-Evolves {w} (called_back token params) h =
      answered-Evolves token (set_running params) w _ _ (λ m. refl) (set_running-Moves params)
        (app_callback-Answered D token w params)
  Step-Evolves {w} (ended token) h =
      answered-Evolves token set_finished w _ _ (λ m. refl) set_finished-Moves
        (app_callback_delete-Answered D token w)
  Step-Evolves {w} (given_up token) h = given_up-Evolves token w.db
  Step-Evolves {w} (pruned from_timestamp now older) h =
      pruned-Evolves from_timestamp now older w.db h
  Step-Evolves {w} (checked health) h = Evolves-of _ _ (check-Stays health w.db)
  Step-Evolves (proxied c) h = Evolves-refl _

  -- The table refines a registry of sessions. Whatever has been done to a valid table before, one
  -- more request, launch that ends, session that gives up or maintenance command changes what the
  -- table has under an id in no other way than these: a session stays, with its owner, its name and
  -- its token, and does not become starting if it was not; a session comes in, starting or broken,
  -- where there was none; or one that has ended or is broken is forgotten.
  pub Reach-Evolves :
      (w v u : World D)
      → Reach D w v
      → IsValid (D.rows w.db)
      → Step D v u
      → (i : ℤ) → view (D.rows v.db) i ⟶ view (D.rows u.db) i
  Reach-Evolves w v u r h st i = Step-Evolves st (Reach-IsValid D w v r h) i
