-- ===== src/Migration.antt =====
-- server/migration/src: the two migrations of the application table. The schema manager of
-- `sea_orm_migration` is a parameter, with what its statements do to a table as laws.
pub mod Documented
pub mod Tables
use spark_plug.Common.{
  String, ◌≡◌, ◌≢◌, Bool, true, false, not, Option, none, some, List, [], ◌∷◌, ◌++◌ as append, ◌==◌,
  string_eq, Result, ok, err, keep, All, In,
}

-- The functions of `sea_orm_migration::schema` that make a column.
pub data ColumnKind : Type 0 where
  pk_auto string string_null timestamp_with_time_zone : ColumnKind

-- `default_now` is `.default(Expr::current_timestamp())`.
pub record ColumnDef : Type 0 where
  pub name : String
  pub kind : ColumnKind
  pub default_now : Bool

abbrev pub column : String → ColumnKind → ColumnDef
column name kind = record { name = name; kind = kind; default_now = false }

-- `Table::create`, `Index::create`, `Index::drop`, `Table::drop` and `Table::alter`
pub record TableCreate : Type 0 where
  pub table : String
  pub if_not_exists : Bool
  pub columns : List ColumnDef

pub record IndexCreate : Type 0 where
  pub name : String
  pub table : String
  pub column : String

pub record IndexDrop : Type 0 where
  pub name : String
  pub table : String
  pub if_exists : Bool

pub record TableDrop : Type 0 where
  pub table : String
  pub if_exists : Bool

pub data Alteration : Type 0 where
  add_column : ColumnDef → Alteration
  drop_column : String → Alteration

pub record TableAlter : Type 0 where
  pub table : String
  pub change : Alteration

-- A table, as the database has it.
pub record TableSchema : Type 0 where
  pub columns : List ColumnDef
  pub indexes : List IndexCreate

pub record SchemaManager : Type 1 where
  pub Db : Type 0
  pub table : Db → String → Option TableSchema
  pub create_table : TableCreate → Db → Result String (Unit {0}) × Db
  pub create_index : IndexCreate → Db → Result String (Unit {0}) × Db
  pub drop_index : IndexDrop → Db → Result String (Unit {0}) × Db
  pub drop_table : TableDrop → Db → Result String (Unit {0}) × Db
  pub alter_table : TableAlter → Db → Result String (Unit {0}) × Db

-- The identifiers that `DeriveIden` makes of the two enums `Application`.
pub data Application : Type 0 where
  table id created_at username state token address application_id name : Application

abbrev pub iden : Application → String
iden table = "application"
iden id = "id"
iden created_at = "created_at"
iden username = "username"
iden state = "state"
iden token = "token"
iden address = "address"
iden application_id = "application_id"
iden name = "name"

abbrev pub application_columns : List ColumnDef
application_columns =
    column (iden id) pk_auto
    ∷ column (iden username) string
    ∷ column (iden token) string
    ∷ column (iden state) string
    ∷ column (iden address) string_null
    ∷ column (iden application_id) string_null
    ∷ (record (column (iden created_at) timestamp_with_time_zone) { default_now = true })
    ∷ []

abbrev pub create_application : TableCreate
create_application = record {
  table = iden table;
  if_not_exists = true;
  columns = application_columns;
}

abbrev pub token_index : IndexCreate
token_index = record { name = "application_token"; table = iden table; column = iden token }

abbrev pub username_index : IndexCreate
username_index = record {
  name = "application_username";
  table = iden table;
  column = iden username;
}

abbrev pub drop_username_index : IndexDrop
drop_username_index = record { name = "application_username"; table = iden table; if_exists = true }

abbrev pub drop_token_index : IndexDrop
drop_token_index = record { name = "application_token"; table = iden table; if_exists = true }

abbrev pub drop_application : TableDrop
drop_application = record { table = iden table; if_exists = true }

abbrev pub name_column : ColumnDef
name_column = column (iden name) string_null

module _ (M : SchemaManager) where
  -- A migration's direction: its statements in order, up to the first that fails.
  abbrev pub Migrating : Type 0
  Migrating = M.Db → Result String (Unit {0}) × M.Db

  abbrev pub continue : Migrating → Result String (Unit {0}) → Migrating
  continue k (ok u) db = k db
  continue k (err e) db = (err e, db)

  infixl 5 ◌>>◌
  abbrev pub ◌>>◌ : Migrating → Migrating → Migrating
  ◌>>◌ m k db = let (r, db') = m db in continue k r db'

  pub record Migration : Type 0 where
    pub up : Migrating
    pub down : Migrating

  -- m20220101_000001_create_table_application.rs
  unfoldable pub create_table_application : Migration
  create_table_application = record {
    up = do
      M.create_table create_application
      M.create_index token_index
      M.create_index username_index;
    down = do
      M.drop_index drop_username_index
      M.drop_index drop_token_index
      M.drop_table drop_application;
  }

  -- m20260217_000002_add_name_to_application.rs
  unfoldable pub add_name_to_application : Migration
  add_name_to_application = record {
    up = M.alter_table (record { table = iden table; change = add_column name_column });
    down = M.alter_table (record { table = iden table; change = drop_column (iden name) });
  }

  -- `Migrator::migrations`
  unfoldable pub migrations : List (Migration)
  migrations = create_table_application ∷ add_name_to_application ∷ []
