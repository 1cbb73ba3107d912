-- ===== src/Lifecycle/Addressed.antt =====
-- Whatever the order of the statements of different requests, tasks and commands, an application
-- that is RUNNING has an address.
use mathlib.Core.Path.{subst}
use mathlib.Core.Bool.{false≢true}
use spark_plug.Common.{
  ℤ, String, ◌≡◌, ◌≢◌, refl, Bool, true, false, not, Option, none, some, List, [], arith, is_some,
  ok, err, Result-cases, inl, inr, sym, ◌∙◌, All, All-In, All-map_where, All-keep, map_where,
  string_eq, int_eq,
}
use spark_plug.Application.{Model, State, running, launching, state_eq}
use spark_plug.Database.{Database, NewModel, has_id}
use spark_plug.Database.Keeps.{update_many_keeps, update_keeps, delete_many_keeps}
use spark_plug.Error.{missing_application_address}
use spark_plug.Proxy.Cache.{has_token}
use spark_plug.Proxy.Upstream.{mark_failed, mark_application_failed, address_of, verdict}
use spark_plug.Routes.Api.{set_failed, set_finished, set_running, is_launching}
use spark_plug.Routes.{launch_ended}
use spark_plug.Server.{is_pruned}
use spark_plug.Lifecycle.Rows.{HasUniqueIds, map_where-HasUnique, keep-HasUnique}
use spark_plug.Lifecycle.Statements.{
  Statement, inserted, not_launched, launch_ended_of, finished_where, reported, gave_up, unhealthy,
  pruned_at, Statements, here, further,
}

-- A row that is RUNNING has an address.
pub record IsAddressed (m : Model) : Type 0 where
  pub address : state_eq m.state running ≡ true → is_some m.address ≡ true

-- Every row is, and no two rows have the same id.
pub record IsServable (rows : List Model) : Type 0 where
  pub addressed : All IsAddressed rows
  pub unique : HasUniqueIds rows

map_where-IsServable :
    (p : Model → Bool) (f : Model → Model) (rows : List Model)
    → ((m : Model) → (f m).id ≡ m.id)
    → ((m : Model) → IsAddressed (f m))
    → IsServable rows
    → IsServable (map_where p f rows)
map_where-IsServable p f rows same step h = record {
  addressed = All-map_where IsAddressed p f rows (λ m _ _. step m) h.addressed;
  unique = map_where-HasUnique (λ m. m.id) p f rows same h.unique;
}

launching-IsAddressed : (m : Model) → m.state ≡ launching → IsAddressed m
launching-IsAddressed m e = record { address = λ r. absurd (ground arith) }

missing_of :
    (s : State) (a : Option String)
    → address_of s a ≡ some (err missing_application_address)
    → (state_eq s running ≡ true) × (is_some a ≡ false)
unfolding address_of
missing_of s a e = ground arith

module _ (D : Database) where
  abbrev Servable : D.Db → Type 0
  Servable db = IsServable (D.rows db)

  insert-IsServable :
      (new : NewModel) (db : D.Db)
      → new.state ≡ launching
      → Servable db
      → Servable (D.insert new db).1
  insert-IsServable new db e h = elim (Result-cases (D.insert new db).0) [
    | inl (m, q) ↦
        let (is, rows, fresh) = D.insert_ok new db m q in
        rw rows (record {
          addressed = (launching-IsAddressed m (is.state ∙ e), h.addressed);
          unique = (fresh, h.unique);
        })
    | inr (x, q) ↦ rw (D.insert_err new db x q) h
  ]

  updated :
      (p : Model → Bool) (f : Model → Model) (db : D.Db)
      → ((m : Model) → (f m).id ≡ m.id)
      → ((m : Model) → IsAddressed (f m))
      → Servable db
      → Servable (D.update_many f p db).1
  updated p f db same step =
      update_many_keeps D IsServable db f p (map_where-IsServable p f (D.rows db) same step)

  updated_one :
      (i : ℤ) (f : Model → Model) (db : D.Db)
      → ((m : Model) → (f m).id ≡ m.id)
      → ((m : Model) → IsAddressed (f m))
      → Servable db
      → Servable (D.update i f db).1
  updated_one i f db same step =
      update_keeps D IsServable db i f (map_where-IsServable (has_id i) f (D.rows db) same step)

  Statement-IsServable : {db db' : D.Db} → Statement D db db' → Servable db → Servable db'
  unfolding launch_ended mark_application_failed
  Statement-IsServable {db} (inserted new e) = insert-IsServable new db e
  Statement-IsServable {db} (not_launched i) =
      updated_one i set_failed db (λ m. refl) (λ m. record { address = λ r. cc })
  Statement-IsServable {db} (launch_ended_of i) =
      updated (is_launching i) set_failed db (λ m. refl) (λ m. record { address = λ r. cc })
  Statement-IsServable {db} (finished_where p) =
      updated p set_finished db (λ m. refl) (λ m. record { address = λ r. cc })
  Statement-IsServable {db} (reported params token) =
      updated (has_token token) (set_running params) db (λ m. refl)
        (λ m. record { address = λ r. refl })
  Statement-IsServable {db} (gave_up token) =
      updated (has_token token) mark_failed db (λ m. refl) (λ m. record { address = λ r. cc })
  Statement-IsServable {db} (unhealthy i) =
      updated_one i mark_failed db (λ m. refl) (λ m. record { address = λ r. cc })
  Statement-IsServable {db} (pruned_at cutoff) =
      delete_many_keeps D IsServable db (is_pruned cutoff) (λ h. record {
        addressed = All-keep IsAddressed (λ m. not (is_pruned cutoff m)) (D.rows db) h.addressed;
        unique = keep-HasUnique (λ m. m.id) (λ m. not (is_pruned cutoff m)) (D.rows db) h.unique;
      })

  pub Statements-IsServable :
      (db db' : D.Db) → Statements D db db' → IsServable (D.rows db) → IsServable (D.rows db')
  Statements-IsServable db _ here h = h
  Statements-IsServable db _ (further r st) h =
      Statement-IsServable st (Statements-IsServable db _ r h)

  verdict_missing :
      (token : String) (closed : Bool) (db : D.Db)
      → verdict D token (closed, db) ≡ some (err missing_application_address)
      → (m : Model) × (D.find_one (has_token token) db ≡ ok (some m))
        × (address_of m.state m.address ≡ some (err missing_application_address))
  unfolding verdict
  verdict_missing token closed db e = elim (Result-cases (D.find_one (has_token token) db)) [
    | inr (x, f) ↦ absurd (ground arith)
    | inl (none, f) ↦ absurd (ground arith)
    | inl (some m, f) ↦ (m, f, ground arith)
  ]

  -- Since the table was empty, whatever the order of the statements of requests, tasks and
  -- commands, no look for the address of a session finds that it is missing.
  pub missing_address_never :
      (before db : D.Db) (token : String) (closed : Bool)
      → D.rows before ≡ []
      → Statements D before db
      → verdict D token (closed, db) ≢ some (err missing_application_address)
  missing_address_never before db token closed empty r e =
      let (m, f, g) = verdict_missing token closed db e in
      let (runs, bare) = missing_of m.state m.address g in
      let (has, listed) = D.find_one_ok (has_token token) db (some m) f in
      let start : IsServable (D.rows before) =
        subst IsServable (sym empty) (record { addressed = tt; unique = tt }) in
      let h = Statements-IsServable before db r start in
      let at = All-In IsAddressed (D.rows db) h.addressed listed in
      false≢true (sym bare ∙ at.address runs)
