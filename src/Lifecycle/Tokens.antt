-- ===== src/Lifecycle/Tokens.antt =====
-- Which applications a token stands for, where no `Uuid::new_v4` of `create_app`
-- (server/src/routes.rs) is drawn twice.
use spark_plug.Common.{
  ℤ, ◌≤◌, String, ◌≡◌, ◌≢◌, refl, Bool, false, not, Option, none, some, List, [], ◌∷◌, arith,
  Result, All, inl, inr, Bool-cases, string_eq, int_eq, eq_iff, map_where, count_where,
  count_of_none, ok, err,
}
use spark_plug.Application.{Model, DateTime}
use spark_plug.Database.{Database, has_id}
use spark_plug.Http.{Status}
use spark_plug.Auth.{UserId, BearerToken}
use spark_plug.Proxy.Cache.{has_token}
use spark_plug.Proxy.Upstream.{mark_failed, mark_application_failed}
use spark_plug.Routes.Api.{
  AppState, World, CreateApplicationRequest, set_failed, set_finished, set_running, is_owned,
  is_launching,
}
use spark_plug.Routes.{create_app, launch_ended, delete_app}
use spark_plug.Routes.Create.{unchanged, added, create_app-Adds}
use spark_plug.Routes.Owner.{delete_app_rows}
use spark_plug.Routes.Callback.{
  Answered, updated, missing, failed as faulted, app_callback-Answered,
  app_callback_delete-Answered,
}
use spark_plug.Server.{prune, prune_at, is_pruned, cutoff_at}
use spark_plug.Server.Check.{check_keeps}
use spark_plug.Database.Keeps.{update_many_keeps, delete_many_keeps}
use spark_plug.Lifecycle.Rows.{HasUnique, map_where-HasUnique, keep-HasUnique}
use spark_plug.Lifecycle.Reach.{
  Step, created, launch_over, deleted, called_back, ended, given_up, pruned, checked, proxied,
}

abbrev pub HasUniqueTokens : List Model → Type 0
HasUniqueTokens = HasUnique (λ m. m.token)

-- A token that no row has.
abbrev pub IsNew : Option String → List Model → Type 0
IsNew none rows = Unit
IsNew (some token) rows = All (λ r. r.token ≢ token) rows

module _ (D : Database) where
  abbrev Unique : D.Db → Type 0
  Unique db = HasUniqueTokens (D.rows db)

  -- The token that a step draws.
  abbrev pub drawn : {w v : World D} → Step D w v → Option String
  drawn (created s token user params) = some token
  drawn _ = none

  -- Steps of which each draws a new token, if it draws one.
  pub data FreshReach (w : World D) : World D → Type 0 where
    here : FreshReach w w
    next :
        {v u : World D}
        → FreshReach w v
        → (st : Step D v u) → IsNew (drawn st) (D.rows v.db)
        → FreshReach w u

  marked :
      (p : Model → Bool) (f : Model → Model) (rows : List Model)
      → ((m : Model) → (f m).token ≡ m.token)
      → HasUniqueTokens rows
      → HasUniqueTokens (map_where p f rows)
  marked p f rows same = map_where-HasUnique (λ m. m.token) p f rows same

  create_app-Unique :
      (s : AppState) (token : String) (user : UserId) (params : CreateApplicationRequest)
      (w : World D)
      → IsNew (some token) (D.rows w.db)
      → Unique w.db
      → Unique (create_app D s token user params w).1.db
  create_app-Unique s token user params w new h = elim (create_app-Adds D s token user params w) [
    | unchanged e ↦ rw e h
    | added m is fresh (inl e) ↦ rw (e, is.token) (new, h)
    | added m is fresh (inr e) ↦ rw (e, is.token) (new, h)
  ]

  delete_app-Unique :
      (s : AppState) (app_id : ℤ) (user : UserId) (w : World D)
      → Unique w.db
      → Unique (delete_app D s app_id user w).1.db
  delete_app-Unique s app_id user w h = elim (delete_app_rows D s app_id user w) [
    | inl e ↦ rw e h
    | inr e ↦ rw e (marked (is_owned user.name app_id) set_finished (D.rows w.db) (λ m. refl) h)
  ]

  Answered-Unique :
      (token : BearerToken) (f : Model → Model) (w : World D) (r : Result Status (Unit {0}))
      (rows : List Model)
      → ((m : Model) → (f m).token ≡ m.token)
      → Answered D token f w r rows
      → Unique w.db
      → HasUniqueTokens rows
  Answered-Unique token f w r rows same (updated _ _ e) h =
      rw e (marked (has_token token.token) f (D.rows w.db) same h)
  Answered-Unique token f w r rows same (missing _ _ e) h = rw e h
  Answered-Unique token f w r rows same (faulted _ e) h = rw e h

  prune_at-Unique :
      (o : Result String DateTime) (db : D.Db) → Unique db → Unique (prune_at D o db).1
  unfolding prune_at
  prune_at-Unique (err x) db h = h
  prune_at-Unique (ok cutoff) db h =
      delete_many_keeps D HasUniqueTokens db (is_pruned cutoff)
        (keep-HasUnique (λ m. m.token) (λ m. not (is_pruned cutoff m)) (D.rows db)) h

  Step-Unique :
      {w v : World D} (st : Step D w v) → IsNew (drawn st) (D.rows w.db) → Unique w.db → Unique v.db
  unfolding launch_ended mark_application_failed prune
  Step-Unique {w} (created s token user params) new = create_app-Unique s token user params w new
  Step-Unique {w} (launch_over app_id) new =
      update_many_keeps D HasUniqueTokens w.db set_failed (is_launching app_id)
        (marked (is_launching app_id) set_failed (D.rows w.db) (λ m. refl))
  Step-Unique {w} (deleted s app_id user) new = delete_app-Unique s app_id user w
  Step-Unique {w} (called_back token params) new =
      Answered-Unique token (set_running params) w _ _ (λ m. refl)
        (app_callback-Answered D token w params)
  Step-Unique {w} (ended token) new =
      Answered-Unique token set_finished w _ _ (λ m. refl) (app_callback_delete-Answered D token w)
  Step-Unique {w} (given_up token) new =
      update_many_keeps D HasUniqueTokens w.db mark_failed (has_token token)
        (marked (has_token token) mark_failed (D.rows w.db) (λ m. refl))
  Step-Unique {w} (pruned from_timestamp now older) new =
      prune_at-Unique (cutoff_at from_timestamp now older) w.db
  Step-Unique {w} (checked health) new =
      check_keeps D HasUniqueTokens (λ i rows. marked (has_id i) mark_failed rows (λ m. refl))
        health w.db
  Step-Unique (proxied c) new = λ h. h

  FreshReach-Unique : (w v : World D) → FreshReach w v → Unique w.db → Unique v.db
  FreshReach-Unique w _ here h = h
  FreshReach-Unique w _ (next r st new) h = Step-Unique st new (FreshReach-Unique w _ r h)

unmatched :
    (token : String) (m : Model) (ms : List Model)
    → m.token ≡ token
    → All (λ r. r.token ≢ m.token) ms
    → All (λ r. has_token token r ≡ false) ms
unmatched token m [] e h = tt
unmatched token m (r ∷ rs) e h =
    (ground (arith, eq_iff r.token token, h.0), unmatched token m rs e h.1)

count_unique :
    (token : String) (rows : List Model)
    → HasUniqueTokens rows
    → count_where (has_token token) rows ≤ 1
count_unique token [] h = omega arith
count_unique token (m ∷ ms) h = elim (Bool-cases (has_token token m)) [
  | inl e ↦
      let none_else =
        count_of_none (has_token token) set_finished ms
          (unmatched token m ms ((eq_iff m.token token).0 e) h.0) in
      ground arith
  | inr e ↦ let ih = count_unique token ms h.1 in ground arith
]

-- Where the table was empty and every created application has drawn a token that no row had, a
-- token stands for at most one application, whatever happened in between: so a callback, a session
-- that gives up and the proxy mean the same one.
pub FreshReach-count_token :
    (D : Database) (w v : World D) (token : String)
    → D.rows w.db ≡ []
    → FreshReach D w v
    → count_where (has_token token) (D.rows v.db) ≤ 1
FreshReach-count_token D w v token empty r =
    count_unique token (D.rows v.db) (FreshReach-Unique D w v r (rw empty tt))
