-- ===== src/Migration/Tables.antt =====
-- What the migrations of server/migration/src make of the application table, and that the entity of
-- server/src/entities/application.rs fits it.
use spark_plug.Common.{
  String, ◌≡◌, refl, true, false, Option, none, some, List, [], ◌∷◌, ◌++◌ as append, string_eq,
  Result, ok, err, All, Any, arith, ap, sym, ◌∙◌, ok-ne-err,
}
use spark_plug.Application.{
  FieldType, primary_key, date_time_utc, text, optional_text, fields, table_name,
}
use spark_plug.Migration.{
  ColumnKind, pk_auto, string, string_null, timestamp_with_time_zone, ColumnDef, IndexCreate,
  TableSchema, SchemaManager, name_column, application_columns, token_index, username_index,
  Migrating, continue, ◌>>◌, create_application, drop_username_index, drop_token_index,
  drop_application, Migration, create_table_application, add_name_to_application, migrations,
}
use spark_plug.Migration.Documented.{has_index, has_column, without_column, Gives, IsDocumented}

abbrev pub created : TableSchema
created = record { columns = application_columns; indexes = username_index ∷ token_index ∷ [] }

abbrev pub migrated : TableSchema
migrated = record created { columns = append application_columns (name_column ∷ []) }

-- The column that sea_orm reads a field from.
abbrev pub kind_of : FieldType → ColumnKind
kind_of primary_key = pk_auto
kind_of date_time_utc = timestamp_with_time_zone
kind_of text = string
kind_of optional_text = string_null

abbrev pub Holds : ColumnDef → String × FieldType → Type 0
Holds c (field, type) = (c.name ≡ field) × (c.kind ≡ kind_of type)

pub record HasFields (t : TableSchema) : Type 0 where
  pub columns_of : All (λ f. Any (λ c. Holds c f) t.columns) fields
  pub fields_of : All (λ c. Any (λ f. Holds c f) fields) t.columns

migrated-HasFields : HasFields migrated
migrated-HasFields = record { columns_of = ground arith; fields_of = ground arith }

module _ (M : SchemaManager) where
  -- The migrations' `up`, in order, up to the first that fails; and their `down`, in the other
  -- order.
  abbrev pub all_up : List (Migration M) → Migrating M
  all_up [] db = (ok tt, db)
  all_up (m ∷ ms) db = ◌>>◌ M m.up (all_up ms) db

  abbrev pub all_down : List (Migration M) → Migrating M
  all_down [] db = (ok tt, db)
  all_down (m ∷ ms) db = ◌>>◌ M (all_down ms) m.down db

module _ (M : SchemaManager) (h : IsDocumented M) where
  continue-Gives :
      (k : Migrating M) (r : Result String (Unit {0})) (db : M.Db) (o : Option TableSchema)
      → r ≡ ok tt
      → Gives M (k db) table_name o
      → Gives M (continue M k r db) table_name o
  continue-Gives k (ok u) db o e g = g
  continue-Gives k (err x) db o e g = absurd (ok-ne-err (sym e))

  -- A sequence, by what each part gives.
  then-Gives :
      (m k : Migrating M) (db : M.Db) (p o : Option TableSchema)
      → Gives M (m db) table_name p
      → ((db' : M.Db) → M.table db' table_name ≡ p → Gives M (k db') table_name o)
      → Gives M (◌>>◌ M m k db) table_name o
  then-Gives m k db p o g f = continue-Gives k (m db).0 (m db).1 o g.0 (f (m db).1 g.1)

  abbrev first : Migration M
  first = create_table_application M

  abbrev second : Migration M
  second = add_name_to_application M

  abbrev with_indexes : List IndexCreate → Option TableSchema
  with_indexes is = some (record { columns = application_columns; indexes = is })

  first_up :
      (db : M.Db) → M.table db table_name ≡ none → Gives M (first.up db) table_name (some created)
  unfolding create_table_application
  first_up db e =
      then-Gives (M.create_table create_application)
        (◌>>◌ M (M.create_index token_index) (M.create_index username_index)) db (with_indexes [])
        (some created) (h.create_new create_application db e)
        (λ d f.
          then-Gives (M.create_index token_index) (M.create_index username_index) d
            (with_indexes (token_index ∷ [])) (some created) (h.index_new token_index d _ f refl)
            (λ d' f'. h.index_new username_index d' _ f' refl))

  first_down :
      (db : M.Db) → M.table db table_name ≡ some created → Gives M (first.down db) table_name none
  unfolding create_table_application
  first_down db e =
      then-Gives (M.drop_index drop_username_index)
        (◌>>◌ M (M.drop_index drop_token_index) (M.drop_table drop_application)) db
        (with_indexes (token_index ∷ [])) none (h.index_dropped drop_username_index db _ e refl)
        (λ d f.
          then-Gives (M.drop_index drop_token_index) (M.drop_table drop_application) d
            (with_indexes []) none (h.index_dropped drop_token_index d _ f refl)
            (λ d' f'. h.table_dropped drop_application d' refl))

  second_up :
      (db : M.Db) (t : TableSchema)
      → M.table db table_name ≡ some t
      → has_column "name" t.columns ≡ false
      → Gives M
          (second.up db)
          table_name
          (some (record t { columns = append t.columns (name_column ∷ []) }))
  unfolding add_name_to_application
  second_up db t e n = h.column_added _ name_column db t e n

  second_down :
      (db : M.Db) (t : TableSchema)
      → M.table db table_name ≡ some t
      → has_column "name" t.columns ≡ true
      → Gives M
          (second.down db)
          table_name
          (some (record t { columns = without_column "name" t.columns }))
  unfolding add_name_to_application
  second_down db t e n = h.column_dropped _ "name" db t e n

  has_column-append :
      (cs : List ColumnDef) → has_column "name" (append cs (name_column ∷ [])) ≡ true
  has_column-append [] = refl
  has_column-append (c ∷ cs) = ground (arith, has_column-append cs)

  without_column-append :
      (cs : List ColumnDef)
      → has_column "name" cs ≡ false
      → without_column "name" (append cs (name_column ∷ [])) ≡ cs
  without_column-append [] e = refl
  without_column-append (c ∷ cs) e = ground (arith, without_column-append cs)

  all_up-Gives :
      (db : M.Db)
      → M.table db table_name ≡ none
      → Gives M (all_up M (migrations M) db) table_name (some migrated)
  unfolding migrations
  all_up-Gives db e =
      then-Gives first.up (all_up M (second ∷ [])) db (some created) (some migrated) (first_up db e)
        (λ d f.
          then-Gives second.up (all_up M []) d (some migrated) (some migrated)
            (second_up d created f refl) (λ d' f'. (refl, f')))

  all_down-Gives :
      (db : M.Db)
      → M.table db table_name ≡ some migrated
      → Gives M (all_down M (migrations M) db) table_name none
  unfolding migrations
  all_down-Gives db e =
      then-Gives (all_down M (second ∷ [])) first.down db (some created) none
        (then-Gives (all_down M []) second.down db (some migrated) (some created) (refl, e)
          (λ d f. second_down d migrated f refl))
        first_down

  -- Over a schema manager that does what it is documented to do, from a database without the
  -- application table, the migrations succeed, and the table that they
  -- make has a column of the right kind for every field of the entity, and no other column.
  pub all_up-HasFields :
      (db : M.Db)
      → M.table db table_name ≡ none
      → (t : TableSchema) × Gives M (all_up M (migrations M) db) table_name (some t) × HasFields t
  all_up-HasFields db e = (migrated, all_up-Gives db e, migrated-HasFields)

  -- Over such a schema manager, from a database without the application table, all migrations and then all their reversals, the
  -- last first, succeed and leave it without the table.
  pub all_down-all_up :
      (db : M.Db)
      → M.table db table_name ≡ none
      → Gives M (◌>>◌ M (all_up M (migrations M)) (all_down M (migrations M)) db) table_name none
  all_down-all_up db e =
      then-Gives (all_up M (migrations M)) (all_down M (migrations M)) db (some migrated) none
        (all_up-Gives db e) all_down-Gives

  -- The reversal of the second migration leaves a table without the column `name`, whatever else it
  -- has, as it was before the migration.
  pub add_name-reverts :
      (db : M.Db) (t : TableSchema)
      → M.table db table_name ≡ some t
      → has_column "name" t.columns ≡ false
      → Gives M
          (◌>>◌ M (add_name_to_application M).up (add_name_to_application M).down db)
          table_name
          (some t)
  add_name-reverts db t e n =
      let added : TableSchema = record t { columns = append t.columns (name_column ∷ []) } in
      then-Gives second.up second.down db (some added) (some t) (second_up db t e n) (λ d f.
        let (done, now) = second_down d added f (has_column-append t.columns) in
        (
          done,
          now ∙ ap (λ cs. some (record t { columns = cs })) (without_column-append t.columns n),
        ))

  -- Over such a schema manager, where the table has the index on the token, as a run that was
  -- interrupted leaves it, the first migration fails: it tolerates the table, but not its index.
  pub first_up_again :
      (db : M.Db) (t : TableSchema)
      → M.table db table_name ≡ some t
      → has_index "application_token" t.indexes ≡ true
      → (x : String) × (((create_table_application M).up db).0 ≡ err x)
  unfolding create_table_application
  first_up_again db t e i =
      let (done, now) = h.create_existing create_application db t refl e in
      let (x, f) = h.index_taken token_index (M.create_table create_application db).1 t now i in
      (x, rw (done, f) refl)
