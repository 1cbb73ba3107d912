-- ===== src/Routes/Owner.antt =====
-- A user sees and changes only applications of their own: `get_app` and `delete_app` of
-- server/src/routes.rs.
use spark_plug.Common.{
  ℕ, ℤ, String, ◌≡◌, refl, false, Option, none, some, arith, string_eq, int_eq, eq_iff, eq_refl, ok,
  err, In, map_where, All, ◌⊎◌, inl, inr, Result-cases, ap,
}
use spark_plug.Map.{get, get-remove}
use spark_plug.Application.{Model}
use spark_plug.Database.{Database, DbResult}
use spark_plug.Http.{not_found}
use spark_plug.Auth.{UserId}
use spark_plug.Proxy.Cache.{invalidate}
use spark_plug.Routes.Api.{AppState, World, ApplicationInfo, info, is_owned, set_finished}
use spark_plug.Routes.{get_app, delete_app}

module _ (D : Database) (s : AppState) (app_id : ℤ) (user : UserId) (w : World D) where
  -- The row that the handlers' first query finds.
  pub record IsOwned (m : Model) : Type 0 where
    pub listed : In m (D.rows w.db)
    pub id : m.id ≡ app_id
    pub username : m.username ≡ user.name

  abbrev found : DbResult (Option Model)
  found = D.find_one (is_owned user.name app_id) w.db

  found-IsOwned : (m : Model) → found ≡ ok (some m) → IsOwned m
  found-IsOwned m h =
      let (t, i) = D.find_one_ok (is_owned user.name app_id) w.db (some m) h in
      record {
        listed = i;
        id = ground (arith, eq_iff m.id app_id);
        username = ground (arith, eq_iff m.username user.name);
      }

  -- `get_app` answers with a row of the table that has this id and belongs to this user.
  pub get_app-IsOwned :
      (i : ApplicationInfo)
      → (get_app D s app_id user w).0 ≡ ok i
      → (m : Model) × IsOwned m × (i ≡ info s m)
  unfolding get_app
  get_app-IsOwned i e = go found refl
    where
      go : (r : DbResult (Option Model)) → found ≡ r → (m : Model) × IsOwned m × (i ≡ info s m)
      go (err x) h = absurd (ground arith)
      go (ok none) h = absurd (ground arith)
      go (ok (some m)) h = (m, found-IsOwned m h, ground arith)

  -- `get_app` answers 404 only where the user has no application with this id.
  pub get_app_not_found :
      (get_app D s app_id user w).0 ≡ err not_found
      → All (λ m. is_owned user.name app_id m ≡ false) (D.rows w.db)
  unfolding get_app
  get_app_not_found e = go found refl
    where
      go :
          (r : DbResult (Option Model))
          → found ≡ r
          → All (λ m. is_owned user.name app_id m ≡ false) (D.rows w.db)
      go (err x) h = absurd (ground arith)
      go (ok none) h = D.find_one_ok (is_owned user.name app_id) w.db none h
      go (ok (some m)) h = absurd (ground arith)

  abbrev finish : DbResult ℕ × D.Db
  finish = D.update_many set_finished (is_owned user.name app_id) w.db

  finish_rows :
      (D.rows finish.1 ≡ D.rows w.db)
      ⊎ (D.rows finish.1 ≡ map_where (is_owned user.name app_id) set_finished (D.rows w.db))
  finish_rows = elim (Result-cases finish.0) [
    | inl (n, u) ↦ inr (D.update_many_ok set_finished (is_owned user.name app_id) w.db n u).0
    | inr (x, u) ↦ inl (D.update_many_err set_finished (is_owned user.name app_id) w.db x u)
  ]

  delete_app-found :
      (m : Model) → found ≡ ok (some m) → (delete_app D s app_id user w).1.db ≡ finish.1
  unfolding delete_app
  delete_app-found m f = ground arith

  delete_app_missed : found ≡ ok none → (delete_app D s app_id user w).1.db ≡ w.db
  unfolding delete_app
  delete_app_missed f = ground arith

  delete_app_failed : (x : String) → found ≡ err x → (delete_app D s app_id user w).1.db ≡ w.db
  unfolding delete_app
  delete_app_failed x f = ground arith

  delete_app_upstreams :
      (m : Model) (n : ℕ)
      → found ≡ ok (some m)
      → finish.0 ≡ ok n
      → (delete_app D s app_id user w).1.upstreams ≡ invalidate m.token w.upstreams
  unfolding delete_app
  delete_app_upstreams m n f u = ground arith

  -- `delete_app`, whatever it answers, either changes no row, or sets exactly the user's rows with
  -- this id to FINISHED with no address.
  pub delete_app_rows :
      (D.rows (delete_app D s app_id user w).1.db ≡ D.rows w.db)
      ⊎ (D.rows (delete_app D s app_id user w).1.db
          ≡ map_where (is_owned user.name app_id) set_finished (D.rows w.db))
  delete_app_rows = go found refl
    where
      go :
          (r : DbResult (Option Model))
          → found ≡ r
          → (D.rows (delete_app D s app_id user w).1.db ≡ D.rows w.db)
            ⊎ (D.rows (delete_app D s app_id user w).1.db
                ≡ map_where (is_owned user.name app_id) set_finished (D.rows w.db))
      go (err x) h = inl (ap D.rows (delete_app_failed x h))
      go (ok none) h = inl (ap D.rows (delete_app_missed h))
      go (ok (some m)) h = rw (delete_app-found m h) finish_rows

  -- Where the two statements succeed, the application is finished and its connection is forgotten
  -- whether or not its driver can be told to stop.
  pub delete_app_finishes :
      (m : Model) (n : ℕ)
      → D.find_one (is_owned user.name app_id) w.db ≡ ok (some m)
      → (D.update_many set_finished (is_owned user.name app_id) w.db).0 ≡ ok n
      → (D.rows (delete_app D s app_id user w).1.db
          ≡ map_where (is_owned user.name app_id) set_finished (D.rows w.db))
        × (get (delete_app D s app_id user w).1.upstreams.connections m.token ≡ none)
  delete_app_finishes m n f u = (
    rw (delete_app-found m f)
        (D.update_many_ok set_finished (is_owned user.name app_id) w.db n u).0,
    rw (delete_app_upstreams m n f u) (unfold invalidate in simp (get-remove, eq_refl)),
  )

  -- A delete that is answered with 200 found a row, and its update succeeded.
  pub delete_app_ok :
      (u : Unit {0})
      → (delete_app D s app_id user w).0 ≡ ok u
      → (m : Model) × (n : ℕ) × (D.find_one (is_owned user.name app_id) w.db ≡ ok (some m))
        × ((D.update_many set_finished (is_owned user.name app_id) w.db).0 ≡ ok n)
  unfolding delete_app
  delete_app_ok u e = go found refl
    where
      updated :
          (m : Model) (r : DbResult ℕ)
          → found ≡ ok (some m)
          → finish.0 ≡ r
          → (n : ℕ) × (finish.0 ≡ ok n)
      updated m (ok n) f h = (n, h)
      updated m (err x) f h = absurd (ground arith)

      go :
          (r : DbResult (Option Model))
          → found ≡ r
          → (m : Model) × (n : ℕ) × (found ≡ ok (some m)) × (finish.0 ≡ ok n)
      go (err x) h = absurd (ground arith)
      go (ok none) h = absurd (ground arith)
      go (ok (some m)) h = let (n, q) = updated m finish.0 h refl in (m, n, h, q)
