-- ===== src/Database.antt =====
-- The SQL database behind `sea_orm`, which is not part of the repository: a parameter. The laws
-- say what the statements that the server issues do to the rows of the application table: a
-- statement that succeeds has its SQL effect, and one that fails leaves the rows as they were.
pub mod Memory
pub mod Keeps
use mathlib.Core.List.{Perm}
use spark_plug.Common.{
  ℕ, ℤ, String, ◌≡◌, ◌≢◌, Bool, true, false, not, Option, none, some, List, ◌∷◌, ◌==◌, int_eq,
  Result, ok, err, keep, map_where, count_where, All, In,
}
use spark_plug.Application.{State, Model}

-- The columns that an `ActiveModel` sets for an insertion.
pub record NewModel : Type 0 where
  pub username : String
  pub name : Option String
  pub state : State
  pub token : String

-- What the database makes of them: the columns that are not set take their defaults.
pub record IsInserted (new : NewModel) (m : Model) : Type 0 where
  pub username : m.username ≡ new.username
  pub name : m.name ≡ new.name
  pub state : m.state ≡ new.state
  pub token : m.token ≡ new.token
  pub address : m.address ≡ none
  pub application_id : m.application_id ≡ none

-- The error of a statement is the text of its `DbErr`.
abbrev pub DbResult : Type 0 → Type 0
DbResult A = Result String A

-- What a query with `LIMIT 1` may answer: some row that the filter accepts, if there is one.
abbrev pub IsOneOf : (Model → Bool) → List Model → Option Model → Type 0
IsOneOf p ms none = All (λ m. p m ≡ false) ms
IsOneOf p ms (some m) = (p m ≡ true) × In m ms

abbrev pub has_id : ℤ → Model → Bool
has_id i m = m.id == i

pub record Database : Type 1 where
  pub Db : Type 0
  -- The rows of the table, in an order that nothing below depends on.
  pub rows : Db → List Model
  -- `ActiveModel::insert`
  pub insert : NewModel → Db → DbResult Model × Db
  -- `find().filter(..).one`, and `.all`
  pub find_one : (Model → Bool) → Db → DbResult (Option Model)
  pub find_all : (Model → Bool) → Db → DbResult (List Model)
  -- `update_many().col_expr(..).filter(..).exec`: the rows affected
  pub update_many : (Model → Model) → (Model → Bool) → Db → DbResult ℕ × Db
  -- `ActiveModel { id, .. }.update`
  pub update : ℤ → (Model → Model) → Db → DbResult Model × Db
  -- `delete_many().filter(..).exec`: the rows affected
  pub delete_many : (Model → Bool) → Db → DbResult ℕ × Db
  pub insert_ok :
      (new : NewModel) (db : Db) (m : Model)
      → (insert new db).0 ≡ ok m
      → IsInserted new m × (rows (insert new db).1 ≡ m ∷ rows db) × All (λ r. r.id ≢ m.id) (rows db)
  pub insert_err :
      (new : NewModel) (db : Db) (e : String)
      → (insert new db).0 ≡ err e
      → rows (insert new db).1 ≡ rows db
  pub find_one_ok :
      (p : Model → Bool) (db : Db) (o : Option Model) → find_one p db ≡ ok o → IsOneOf p (rows db) o
  pub find_all_ok :
      (p : Model → Bool) (db : Db) (ms : List Model)
      → find_all p db ≡ ok ms
      → Perm ms (keep p (rows db))
  pub update_many_ok :
      (f : Model → Model) (p : Model → Bool) (db : Db) (n : ℕ)
      → (update_many f p db).0 ≡ ok n
      → (rows (update_many f p db).1 ≡ map_where p f (rows db)) × (n ≡ count_where p (rows db))
  pub update_many_err :
      (f : Model → Model) (p : Model → Bool) (db : Db) (e : String)
      → (update_many f p db).0 ≡ err e
      → rows (update_many f p db).1 ≡ rows db
  pub update_ok :
      (i : ℤ) (f : Model → Model) (db : Db) (m : Model)
      → (update i f db).0 ≡ ok m
      → rows (update i f db).1 ≡ map_where (has_id i) f (rows db)
  pub update_err :
      (i : ℤ) (f : Model → Model) (db : Db) (e : String)
      → (update i f db).0 ≡ err e
      → rows (update i f db).1 ≡ rows db
  pub delete_many_ok :
      (p : Model → Bool) (db : Db) (n : ℕ)
      → (delete_many p db).0 ≡ ok n
      → rows (delete_many p db).1 ≡ keep (λ m. not (p m)) (rows db)
  pub delete_many_err :
      (p : Model → Bool) (db : Db) (e : String)
      → (delete_many p db).0 ≡ err e
      → rows (delete_many p db).1 ≡ rows db
