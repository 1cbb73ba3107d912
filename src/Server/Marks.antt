-- ===== src/Server/Marks.antt =====
-- Which applications `check` marks as failed (server/src/lib.rs).
use mathlib.Core.List.{foldr}
use mathlib.Core.List.Perm
use mathlib.Core.Bool.{Bool-set}
use spark_plug.Common.{
  ℕ, ◌+◌, String, ◌≡◌, ◌≢◌, refl, Bool, true, false, ◌&&◌, ◌||◌, List, [], ◌∷◌, arith, ok, err,
  Result-cases, Bool-cases, inl, inr, ap, sym, ◌∙◌, map_where, keep, All, All-zip, All-of,
  map_where_twice, map_where_ext, map_where_never, int_eq, eq_iff, eq_refl, ok-ne-err, none,
}
use spark_plug.Application.{Model, running, failed, state_eq}
use spark_plug.Database.{Database, has_id}
use spark_plug.Proxy.Upstream.{mark_failed}
use spark_plug.Server.{Health, should_fail, is_running, check_apps, check_found, check}
use spark_plug.Server.Check.{is_down, should_fail_lem}
use spark_plug.Lifecycle.Rows.{HasUniqueIds}

and_false : (a : Bool) → ((a && false) || false) ≡ false
and_false true = refl
and_false false = refl

and_true : (a : Bool) → ((a && true) || false) ≡ a
and_true true = refl
and_true false = refl

and_or : (a b : Bool) → ((a && false) || b) ≡ b
and_or true b = refl
and_or false b = refl

module _ (health : Health) where
  -- The application fails its check.
  abbrev pub fails : Model → Bool
  fails m = should_fail (health m.id) m.token m.address

  -- One of the applications fails its check and has the row's id.
  abbrev hit : Model → Model → Bool → Bool
  hit m app rest = (fails app && has_id app.id m) || rest

  abbrev hits : List Model → Model → Bool
  hits apps m = foldr (hit m) false apps

  hit_comm : (m a c : Model) (b : Bool) → hit m a (hit m c b) ≡ hit m c (hit m a b)
  hit_comm m a c b = ground arith

  hits_skipped :
      (app : Model) (apps : List Model) (m : Model)
      → fails app ≡ false
      → hits apps m ≡ hits (app ∷ apps) m
  hits_skipped app apps m e = rw e refl

  hits_marked :
      (app : Model) (apps : List Model) (m : Model)
      → fails app ≡ true
      → (has_id app.id m || hits apps m) ≡ hits (app ∷ apps) m
  hits_marked app apps m e = rw e refl

  hits_other :
      (rows : List Model) (m : Model)
      → All (λ r. r.id ≢ m.id) rows
      → hits (keep is_running rows) m ≡ false
  hits_other [] m h = refl
  hits_other (x ∷ xs) m h =
      let ih = hits_other xs m h.1 in
      let other : has_id x.id m ≡ false = ground (arith, h.0, eq_iff m.id x.id) in
      elim (Bool-cases (is_running x)) [
        | inl e ↦ rw e (rw (other, ih) (and_false (fails x)))
        | inr e ↦ rw e ih
      ]

  -- Where ids are unique, the running applications hit exactly those of them that fail.
  hits_running :
      (rows : List Model)
      → HasUniqueIds rows
      → All (λ m. hits (keep is_running rows) m ≡ (is_running m && fails m)) rows
  hits_running [] h = tt
  hits_running (x ∷ xs) h =
      (head_hit, All-zip (λ m d e. later m d ∙ e) xs h.0 (hits_running xs h.1))
    where
      head_hit : hits (keep is_running (x ∷ xs)) x ≡ (is_running x && fails x)
      head_hit =
          let none_later = hits_other xs x h.0 in
          let same : has_id x.id x ≡ true = eq_refl x.id in
          elim (Bool-cases (is_running x)) [
            | inl e ↦ rw e (rw (same, none_later) (and_true (fails x)))
            | inr e ↦ rw e none_later
          ]

      later :
          (m : Model)
          → m.id ≢ x.id
          → hits (keep is_running (x ∷ xs)) m ≡ hits (keep is_running xs) m
      later m d =
          let other : has_id x.id m ≡ false = ground (arith, d, eq_iff m.id x.id) in
          elim (Bool-cases (is_running x)) [
            | inl e ↦ rw e (rw other (and_or (fails x) (hits (keep is_running xs) m)))
            | inr e ↦ rw e refl
          ]

  module _ (D : Database) where
    skipped :
        (app : Model) (apps : List Model) (n : ℕ) (db : D.Db)
        → fails app ≡ false
        → check_apps D health (app ∷ apps) n db ≡ check_apps D health apps n db
    skipped app apps n db e = unfold check_apps in rw e

    marked :
        (app m : Model) (apps : List Model) (n : ℕ) (db : D.Db)
        → fails app ≡ true
        → (D.update app.id mark_failed db).0 ≡ ok m
        → check_apps D health (app ∷ apps) n db
          ≡ check_apps D health apps (n + 1) (D.update app.id mark_failed db).1
    marked app m apps n db e u = unfold check_apps in rw e (rw u)

    stopped :
        (app : Model) (x : String) (apps : List Model) (n : ℕ) (db : D.Db)
        → fails app ≡ true
        → (D.update app.id mark_failed db).0 ≡ err x
        → (check_apps D health (app ∷ apps) n db).0 ≡ err x
    stopped app x apps n db e u = unfold check_apps in rw e (rw u)

    check_apps_rows :
        (apps : List Model) (n k : ℕ) (db : D.Db)
        → (check_apps D health apps n db).0 ≡ ok k
        → D.rows (check_apps D health apps n db).1 ≡ map_where (hits apps) mark_failed (D.rows db)
    check_apps_rows [] n k db h = unfold check_apps in sym (map_where_never mark_failed (D.rows db))
    check_apps_rows (app ∷ apps) n k db h = elim (Bool-cases (fails app)) [
      | inr e ↦
          let t = skipped app apps n db e in
          ap (λ r. D.rows r.1) t
          ∙ check_apps_rows apps n k db (ap (λ r. r.0) (sym t) ∙ h)
          ∙ map_where_ext (hits apps) (hits (app ∷ apps)) mark_failed (D.rows db)
              (All-of (D.rows db) (λ m. hits_skipped app apps m e))
      | inl e ↦ elim (Result-cases (D.update app.id mark_failed db).0) [
        | inr (x, u) ↦ absurd (ok-ne-err (sym h ∙ stopped app x apps n db e u))
        | inl (m, u) ↦
            let t = marked app m apps n db e u in
            ap (λ r. D.rows r.1) t
            ∙ check_apps_rows apps (n + 1) k (D.update app.id mark_failed db).1
                (ap (λ r. r.0) (sym t) ∙ h)
            ∙ ap (map_where (hits apps) mark_failed) (D.update_ok app.id mark_failed db m u)
            ∙ map_where_twice (has_id app.id) (hits apps) mark_failed (D.rows db) (λ m. refl)
                (λ m. refl)
            ∙ map_where_ext (λ m. has_id app.id m || hits apps m) (hits (app ∷ apps)) mark_failed
                (D.rows db) (All-of (D.rows db) (λ m. hits_marked app apps m e))
      ]
    ]

    found_ok :
        (db : D.Db) (ms : List Model)
        → D.find_all is_running db ≡ ok ms
        → check D health db ≡ check_apps D health ms 0 db
    found_ok db ms f = unfold check in rw f (unfold check_found in refl)

    found_err :
        (db : D.Db) (x : String) → D.find_all is_running db ≡ err x → (check D health db).0 ≡ err x
    found_err db x f = unfold check in rw f (unfold check_found in refl)

    -- Where ids are unique, a check that succeeds marks exactly the applications as failed, and
    -- takes their address, that are RUNNING and have no address or answer none of the four
    -- messages, numbered from 0.
    pub check_rows :
        (db : D.Db) (k : ℕ)
        → HasUniqueIds (D.rows db)
        → (check D health db).0 ≡ ok k
        → D.rows (check D health db).1
          ≡ map_where
              (λ m. state_eq m.state running && is_down (health m.id) m.token m.address)
              (λ m. record m { address = none; state = failed })
              (D.rows db)
    check_rows db k unique h = elim (Result-cases (D.find_all is_running db)) [
      | inr (x, f) ↦ absurd (ok-ne-err (sym h ∙ found_err db x f))
      | inl (ms, f) ↦
          let found = found_ok db ms f in
          rw found (
            check_apps_rows ms 0 k db (ap (λ r. r.0) (sym found) ∙ h)
            ∙ map_where_ext (hits ms) (hits (keep is_running (D.rows db))) mark_failed (D.rows db) (
                All-of (D.rows db) (λ m.
                  Perm.foldr-eq Bool-set (hit m) (hit_comm m) (D.find_all_ok is_running db ms f)
                    false))
            ∙ map_where_ext _ _ mark_failed (D.rows db) (hits_running (D.rows db) unique)
            ∙ map_where_ext _ _ mark_failed (D.rows db) (
                All-of (D.rows db) (λ m.
                  ap (λ b. is_running m && b) (should_fail_lem (health m.id) m.token m.address))))
    ]
