-- ===== src/Routes/Create.antt =====
-- Creating an application: `create_app` of server/src/routes.rs, and the task that it spawns.
use mathlib.Core.Path.{subst}
use spark_plug.Common.{
  ℤ, String, ◌≡◌, ◌≢◌, refl, false, List, [], ◌∷◌, arith, int_eq, eq_iff, eq_refl, Result, ok, err,
  map_where, All, ◌⊎◌, inl, inr, Result-cases, ap, ok-ne-err, ok_injective, map_where-of-none, sym,
  ◌∙◌, unwrap_or,
}
use spark_plug.Application.{Model, launching}
use spark_plug.Database.{Database, DbResult, NewModel, IsInserted, has_id}
use spark_plug.Http.{Status, internal_server_error}
use spark_plug.Auth.{UserId}
use spark_plug.Launcher.Names.{IoError}
use spark_plug.Routes.Api.{
  AppState, World, CreateApplicationRequest, ApplicationInfo, info, set_failed,
}
use spark_plug.Routes.{create_app}

unmatched : (i : ℤ) (ms : List Model) → All (λ r. r.id ≢ i) ms → All (λ r. has_id i r ≡ false) ms
unmatched i [] h = tt
unmatched i (m ∷ ms) h = (ground (arith, eq_iff m.id i), unmatched i ms h.1)

-- An update of a new row by its id changes that row alone.
only_new :
    (m : Model) (ms : List Model)
    → All (λ r. r.id ≢ m.id) ms
    → map_where (has_id m.id) set_failed (m ∷ ms) ≡ set_failed m ∷ ms
only_new m ms h = rw (eq_refl m.id) (
    ap (λ r. set_failed m ∷ r)
      (map_where-of-none (has_id m.id) set_failed ms (unmatched m.id ms h)))

module _ (D : Database) (s : AppState) (token : String) (user : UserId)
    (params : CreateApplicationRequest) (w : World D) where
  abbrev new : NewModel
  new = record { username = user.name; name = params.name; state = launching; token = token }

  abbrev inserted : DbResult Model × D.Db
  inserted = D.insert new w.db

  abbrev launched : ℤ → Result IoError (Unit {0})
  launched id =
      s.launcher.launch params.version id params.name user.name token (unwrap_or params.config [])
        params.python_packages

  abbrev outcome : Result Status ApplicationInfo × World D
  outcome = create_app D s token user params w

  -- A created application: its row is new, LAUNCHING, the user's, with the request's name and the
  -- session's token, and a task waits for its launch.
  pub record IsCreated (i : ApplicationInfo) (after : World D) : Type 0 where
    pub row : Model
    pub inserted : IsInserted new row
    pub fresh : All (λ r. r.id ≢ row.id) (D.rows w.db)
    pub rows : D.rows after.db ≡ row ∷ D.rows w.db
    pub info : i ≡ info s row
    pub watched : after.watched ≡ row.id ∷ w.watched

  -- The outcome by the two calls that decide it.
  module _ (m : Model) (h : inserted.0 ≡ ok m) where
    created_reply : (u : Unit {0}) → launched m.id ≡ ok u → outcome.0 ≡ ok (info s m)
    unfolding create_app
    created_reply u l = ground arith

    created_db : (u : Unit {0}) → launched m.id ≡ ok u → outcome.1.db ≡ inserted.1
    unfolding create_app
    created_db u l = ground arith

    created_watched : (u : Unit {0}) → launched m.id ≡ ok u → outcome.1.watched ≡ m.id ∷ w.watched
    unfolding create_app
    created_watched u l = ground arith

    refused_reply : (e : IoError) → launched m.id ≡ err e → outcome.0 ≡ err internal_server_error
    unfolding create_app
    refused_reply e l = ground arith

    refused_db :
        (e : IoError)
        → launched m.id ≡ err e
        → outcome.1.db ≡ (D.update m.id set_failed inserted.1).1
    unfolding create_app
    refused_db e l = ground arith

  insert_refused : (x : String) → inserted.0 ≡ err x → outcome.0 ≡ err internal_server_error
  unfolding create_app
  insert_refused x h = ground arith

  pub IsCreated-of_launch :
      (m : Model) (u : Unit {0})
      → inserted.0 ≡ ok m
      → launched m.id ≡ ok u
      → IsCreated (info s m) outcome.1
  IsCreated-of_launch m u h l =
      let (is_new, rows, fresh) = D.insert_ok new w.db m h in
      record {
        row = m;
        inserted = is_new;
        fresh = fresh;
        rows = rw (created_db m h u l) rows;
        info = refl;
        watched = created_watched m h u l;
      }

  -- What an answer with an application went through.
  pub create_app_ok :
      (i : ApplicationInfo)
      → (create_app D s token user params w).0 ≡ ok i
      → (m : Model) × (u : Unit {0}) × (inserted.0 ≡ ok m) × (launched m.id ≡ ok u) × (info s m ≡ i)
  create_app_ok i e = elim (Result-cases inserted.0) [
    | inr (x, h) ↦ absurd (ok-ne-err (sym e ∙ insert_refused x h))
    | inl (m, h) ↦ elim (Result-cases (launched m.id)) [
      | inl (u, l) ↦ (m, u, h, l, ok_injective (sym (created_reply m h u l) ∙ e))
      | inr (x, l) ↦ absurd (ok-ne-err (sym e ∙ refused_reply m h x l))
    ]
  ]

  -- A request that is answered with an application has created it.
  pub create_app-IsCreated :
      (i : ApplicationInfo)
      → (create_app D s token user params w).0 ≡ ok i
      → IsCreated i (create_app D s token user params w).1
  create_app-IsCreated i e =
      let (m, u, h, l, same) = create_app_ok i e in
      subst (λ j. IsCreated j outcome.1) same (IsCreated-of_launch m u h l)

  -- Where the launch fails and the update succeeds, the table has one new row, and it is FAILED.
  pub create_app_failed :
      (m n : Model) (e : IoError)
      → (D.insert new w.db).0 ≡ ok m
      → launched m.id ≡ err e
      → (D.update m.id set_failed (D.insert new w.db).1).0 ≡ ok n
      → ((create_app D s token user params w).0 ≡ err internal_server_error)
        × (D.rows (create_app D s token user params w).1.db ≡ set_failed m ∷ D.rows w.db)
  create_app_failed m n e h l u = (
    refused_reply m h e l,
    rw (refused_db m h e l) (
        D.update_ok m.id set_failed inserted.1 n u
        ∙ ap (map_where (has_id m.id) set_failed) (D.insert_ok new w.db m h).1
        ∙ only_new m (D.rows w.db) (D.insert_ok new w.db m h).2),
  )

  -- Whatever it answers, `create_app` adds at most one row: one that is made as it asked, with an
  -- id that no row has, and LAUNCHING or FAILED.
  pub data Adds (rows : List Model) : Type 0 where
    unchanged : rows ≡ D.rows w.db → Adds rows
    added :
        (m : Model)
        → IsInserted new m
        → All (λ r. r.id ≢ m.id) (D.rows w.db)
        → (rows ≡ m ∷ D.rows w.db) ⊎ (rows ≡ set_failed m ∷ D.rows w.db)
        → Adds rows

  insert_refused_db : (x : String) → inserted.0 ≡ err x → outcome.1.db ≡ inserted.1
  unfolding create_app
  insert_refused_db x h = ground arith

  refused_rows :
      (m : Model) (e : IoError)
      → inserted.0 ≡ ok m
      → launched m.id ≡ err e
      → (D.rows outcome.1.db ≡ m ∷ D.rows w.db) ⊎ (D.rows outcome.1.db ≡ set_failed m ∷ D.rows w.db)
  refused_rows m e h l = elim (Result-cases (D.update m.id set_failed inserted.1).0) [
    | inl (n, u) ↦ inr (create_app_failed m n e h l u).1
    | inr (x, u) ↦ inl (
        rw (refused_db m h e l)
          (D.update_err m.id set_failed inserted.1 x u ∙ (D.insert_ok new w.db m h).1))
  ]

  pub create_app-Adds : Adds (D.rows outcome.1.db)
  create_app-Adds = elim (Result-cases inserted.0) [
    | inr (x, h) ↦ unchanged (ap D.rows (insert_refused_db x h) ∙ D.insert_err new w.db x h)
    | inl (m, h) ↦
        let (is_new, rows, fresh) = D.insert_ok new w.db m h in
        elim (Result-cases (launched m.id)) [
          | inl (u, l) ↦ added m is_new fresh (inl (ap D.rows (created_db m h u l) ∙ rows))
          | inr (x, l) ↦ added m is_new fresh (refused_rows m x h l)
        ]
  ]
