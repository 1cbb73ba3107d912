-- ===== src/Server/Check.antt =====
-- What `check_application_health` and `check` do (server/src/lib.rs).
use spark_plug.Common.{
  Bool, true, false, not, ◌||◌, refl, ℕ, zero, suc, ◌+◌, ◌≤◌, ◌<◌, String, ◌≡◌, ◌↔◌, Option, none,
  some, arith, ap, sym, ◌∙◌, Result, ok, err, ℤ, List, [], ◌∷◌, Bool-cases, map_where, Result-cases,
  inl, inr, le-cases,
}
use spark_plug.Application.{Model}
use spark_plug.Database.{Database, has_id}
use spark_plug.Proxy.Upstream.{mark_failed}
use spark_plug.Database.Keeps.{update_keeps}
use spark_plug.Server.{
  is_err, healthy_within, check_application_health, Health, Replies, should_fail, is_running,
  check_apps, check_found, check,
}

module _ (send : ℕ → Result String (Unit {0})) where
  healthy_within_ok :
      (left a : ℕ) (last : Option String)
      → send a ≡ ok tt
      → healthy_within send (suc left) a last ≡ ok tt
  healthy_within_ok left a last e = unfold healthy_within in ground arith

  healthy_within_err :
      (left a : ℕ) (last : Option String) (e : String)
      → send a ≡ err e
      → healthy_within send (suc left) a last ≡ healthy_within send left (a + 1) (some e)
  healthy_within_err left a last e f = unfold healthy_within in ground arith

  -- Some round from `a` on, below `b`, gets an answer.
  abbrev pub Answers : ℕ → ℕ → Type 0
  Answers a b = (i : ℕ) × (a ≤ i) × (i < b) × (send i ≡ ok tt)

  healthy_within_sound :
      (left a : ℕ) (last : Option String)
      → healthy_within send left a last ≡ ok tt
      → Answers a (a + left)
  healthy_within_sound zero a none h = absurd (unfold healthy_within in ground arith)
  healthy_within_sound zero a (some e) h = absurd (unfold healthy_within in ground arith)
  healthy_within_sound (suc left) a last h = elim (Result-cases (send a)) [
    | inl (u, e) ↦ (a, omega arith, omega arith, e)
    | inr (x, e) ↦
        let (i, p, q, r) =
          healthy_within_sound left (a + 1) (some x)
            (sym (healthy_within_err left a last x e) ∙ h) in
        (i, omega arith, omega arith, r)
  ]

  healthy_within_complete :
      (left a i : ℕ) (last : Option String)
      → a ≤ i
      → i < a + left
      → send i ≡ ok tt
      → healthy_within send left a last ≡ ok tt
  healthy_within_complete zero a i last p q e = absurd (omega arith)
  healthy_within_complete (suc left) a i last p q e = elim (Result-cases (send a)) [
    | inl (u, f) ↦ healthy_within_ok left a last f
    | inr (x, f) ↦ elim (le-cases a i p) [
      | inl eq ↦ absurd (ground (arith, ap send eq))
      | inr l ↦
          healthy_within_err left a last x f
          ∙ healthy_within_complete left (a + 1) i (some x) (omega arith) (omega arith) e
    ]
  ]

  -- An application is healthy exactly if one of the four messages that may be sent, numbered from
  -- 0, succeeds.
  pub check_application_health_iff :
      (check_application_health send ≡ ok tt) ↔ ((i : ℕ) × (i < 4) × (send i ≡ ok tt))
  check_application_health_iff = (
    λ h.
        let (i, p, q, e) = healthy_within_sound 4 0 none (unfold check_application_health in h) in
        (i, omega arith, e),
    λ (i, q, e).
        unfold check_application_health in
        healthy_within_complete 4 0 i none (omega arith) (omega arith) e,
  )

abbrev answers : Result String (Unit {0}) → Bool
answers (ok u) = true
answers (err e) = false

-- Nobody answers: there is no address, or none of the four messages to it succeeds.
abbrev pub is_down : Replies → String → Option String → Bool
is_down replies token none = true
is_down replies token (some address) = not (
    answers (replies address token 0)
    || (answers (replies address token 1)
        || (answers (replies address token 2) || answers (replies address token 3))))

is_err_within :
    (send : ℕ → Result String (Unit {0}))
    → is_err (check_application_health send)
      ≡ not (answers (send 0) || (answers (send 1) || (answers (send 2) || answers (send 3))))
is_err_within send = unfold check_application_health healthy_within in ground arith

pub should_fail_lem :
    (replies : Replies) (token : String) (address : Option String)
    → should_fail replies token address ≡ is_down replies token address
unfolding should_fail
should_fail_lem replies token none = refl
should_fail_lem replies token (some address) = is_err_within (replies address token)

-- `check` keeps a property of the database that each of its updates keeps.
module _ (D : Database) (P : D.Db → Type 0)
    (step : (i : ℤ) (db : D.Db) → P db → P (D.update i mark_failed db).1) (health : Health) where
  check_apps_keeps :
      (apps : List Model) (n : ℕ) (db : D.Db) → P db → P (check_apps D health apps n db).1
  unfolding check_apps
  check_apps_keeps [] n db h = h
  check_apps_keeps (app ∷ apps) n db h =
      elim (Bool-cases (should_fail (health app.id) app.token app.address)) [
        | inr e ↦ rw e (check_apps_keeps apps n db h)
        | inl e ↦
            let h' = step app.id db h in
            rw e (elim (Result-cases (D.update app.id mark_failed db).0) [
              | inl (m, u) ↦
                  rw u (check_apps_keeps apps (n + 1) (D.update app.id mark_failed db).1 h')
              | inr (x, u) ↦ rw u h'
            ])
      ]

  pub check_steps : (db : D.Db) → P db → P (check D health db).1
  unfolding check
  check_steps db h = elim (Result-cases (D.find_all is_running db)) [
    | inl (ms, f) ↦ rw f (unfold check_found in check_apps_keeps ms 0 db h)
    | inr (x, f) ↦ rw f (unfold check_found in h)
  ]

-- So with a property of the rows.
pub check_keeps :
    (D : Database) (Q : List Model → Type 0)
    → ((i : ℤ) (rows : List Model) → Q rows → Q (map_where (has_id i) mark_failed rows))
    → (health : Health) (db : D.Db) → Q (D.rows db)
    → Q (D.rows (check D health db).1)
check_keeps D Q step health =
    check_steps D (λ db. Q (D.rows db))
      (λ i db. update_keeps D Q db i mark_failed (step i (D.rows db))) health
