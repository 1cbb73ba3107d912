-- ===== src/Migration/Documented.antt =====
-- What the statements of a schema manager are documented to do to a table.
use spark_plug.Common.{
  String, ◌≡◌, Bool, true, false, not, Option, none, some, List, [], ◌∷◌, ◌++◌ as append, ◌==◌,
  string_eq, Result, ok, err, keep, ◌||◌,
}
use spark_plug.Migration.{
  ColumnDef, TableCreate, IndexCreate, IndexDrop, TableDrop, add_column, drop_column, TableSchema,
  SchemaManager,
}

abbrev pub has_index : String → List IndexCreate → Bool
has_index n [] = false
has_index n (i ∷ is) = i.name == n || has_index n is

abbrev pub has_column : String → List ColumnDef → Bool
has_column n [] = false
has_column n (c ∷ cs) = c.name == n || has_column n cs

abbrev pub without_index : String → List IndexCreate → List IndexCreate
without_index n is = keep (λ i. not (i.name == n)) is

abbrev pub without_column : String → List ColumnDef → List ColumnDef
without_column n cs = keep (λ c. not (c.name == n)) cs

-- A statement succeeds, and the table is then this.
abbrev pub Gives :
    (M : SchemaManager) → Result String (Unit {0}) × M.Db → String → Option TableSchema → Type 0
Gives M r table o = (r.0 ≡ ok tt) × (M.table r.1 table ≡ o)

-- What the statements are documented to do.
pub record IsDocumented (M : SchemaManager) : Type 0 where
  pub create_new :
      (s : TableCreate) (db : M.Db)
      → M.table db s.table ≡ none
      → Gives M (M.create_table s db) s.table (some (record { columns = s.columns; indexes = [] }))
  pub create_existing :
      (s : TableCreate) (db : M.Db) (t : TableSchema)
      → s.if_not_exists ≡ true
      → M.table db s.table ≡ some t
      → Gives M (M.create_table s db) s.table (some t)
  pub index_new :
      (s : IndexCreate) (db : M.Db) (t : TableSchema)
      → M.table db s.table ≡ some t
      → has_index s.name t.indexes ≡ false
      → Gives M (M.create_index s db) s.table (some (record t { indexes = s ∷ t.indexes }))
  pub index_taken :
      (s : IndexCreate) (db : M.Db) (t : TableSchema)
      → M.table db s.table ≡ some t
      → has_index s.name t.indexes ≡ true
      → (e : String) × ((M.create_index s db).0 ≡ err e)
  pub index_dropped :
      (s : IndexDrop) (db : M.Db) (t : TableSchema)
      → M.table db s.table ≡ some t
      → s.if_exists ≡ true
      → Gives M
          (M.drop_index s db)
          s.table
          (some (record t { indexes = without_index s.name t.indexes }))
  pub table_dropped :
      (s : TableDrop) (db : M.Db) → s.if_exists ≡ true → Gives M (M.drop_table s db) s.table none
  pub column_added :
      (table : String) (c : ColumnDef) (db : M.Db) (t : TableSchema)
      → M.table db table ≡ some t
      → has_column c.name t.columns ≡ false
      → Gives M
          (M.alter_table (record { table = table; change = add_column c }) db)
          table
          (some (record t { columns = append t.columns (c ∷ []) }))
  pub column_dropped :
      (table name : String) (db : M.Db) (t : TableSchema)
      → M.table db table ≡ some t
      → has_column name t.columns ≡ true
      → Gives M
          (M.alter_table (record { table = table; change = drop_column name }) db)
          table
          (some (record t { columns = without_column name t.columns }))
