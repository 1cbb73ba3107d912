-- ===== src/Database/Keeps.antt =====
-- What a statement does to a property of the table, whether it succeeds or fails.
use spark_plug.Common.{ℤ, Bool, List, Result-cases, inl, inr, not, map_where, keep}
use spark_plug.Application.{Model}
use spark_plug.Database.{Database, has_id}

-- The statements keep a property of the table that their effect keeps.
module _ (D : Database) (Q : List Model → Type 0) (db : D.Db) where
  pub update_many_keeps :
      (f : Model → Model) (p : Model → Bool)
      → (Q (D.rows db) → Q (map_where p f (D.rows db)))
      → Q (D.rows db)
      → Q (D.rows (D.update_many f p db).1)
  update_many_keeps f p step h = elim (Result-cases (D.update_many f p db).0) [
    | inl (n, u) ↦ rw (D.update_many_ok f p db n u).0 (step h)
    | inr (x, u) ↦ rw (D.update_many_err f p db x u) h
  ]

  pub update_keeps :
      (i : ℤ) (f : Model → Model)
      → (Q (D.rows db) → Q (map_where (has_id i) f (D.rows db)))
      → Q (D.rows db)
      → Q (D.rows (D.update i f db).1)
  update_keeps i f step h = elim (Result-cases (D.update i f db).0) [
    | inl (n, u) ↦ rw (D.update_ok i f db n u) (step h)
    | inr (x, u) ↦ rw (D.update_err i f db x u) h
  ]

  pub delete_many_keeps :
      (p : Model → Bool)
      → (Q (D.rows db) → Q (keep (λ m. not (p m)) (D.rows db)))
      → Q (D.rows db)
      → Q (D.rows (D.delete_many p db).1)
  delete_many_keeps p step h = elim (Result-cases (D.delete_many p db).0) [
    | inl (n, u) ↦ rw (D.delete_many_ok p db n u) (step h)
    | inr (x, u) ↦ rw (D.delete_many_err p db x u) h
  ]
