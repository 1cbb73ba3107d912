-- ===== src/Tests/Migration.antt =====
-- Runs of the migrations, over a schema in memory.
use spark_plug.Common.{
  String, refl, Bool, true, false, Option, none, some, [], ◌∷◌, ◌++◌ as append, Result, ok, err,
  ◌==◌, string_eq, eq_refl, if◌then◌else◌,
}
use spark_plug.Application.{table_name}
use spark_plug.Migration.{
  TableSchema, TableCreate, IndexCreate, IndexDrop, Alteration, add_column, drop_column, TableAlter,
  SchemaManager, ◌>>◌, migrations,
}
use spark_plug.Migration.Documented.{has_index, without_index, without_column, Gives, IsDocumented}
use spark_plug.Migration.Tables.{HasFields, all_up, all_down, all_up-HasFields, all_down-all_up}

-- The tables by name.
abbrev Tables : Type 0
Tables = String → Option TableSchema

abbrev set : String → Option TableSchema → Tables → Tables
set name table tables n = if name == n then table else tables n

abbrev Done : Type 0
Done = Result String (Unit {0}) × Tables

abbrev create : TableCreate → Tables → Option TableSchema → Done
create s tables none =
    (ok tt, set s.table (some (record { columns = s.columns; indexes = [] })) tables)
create s tables (some t) = (if s.if_not_exists then ok tt else err "table exists", tables)

abbrev add_index : IndexCreate → Tables → TableSchema → Bool → Done
add_index s tables t true = (err "index exists", tables)
add_index s tables t false =
    (ok tt, set s.table (some (record t { indexes = s ∷ t.indexes })) tables)

abbrev index : IndexCreate → Tables → Option TableSchema → Done
index s tables none = (err "no such table", tables)
index s tables (some t) = add_index s tables t (has_index s.name t.indexes)

abbrev unindex : IndexDrop → Tables → Option TableSchema → Done
unindex s tables none = (ok tt, tables)
unindex s tables (some t) =
    (ok tt, set s.table (some (record t { indexes = without_index s.name t.indexes })) tables)

abbrev change : Alteration → TableSchema → TableSchema
change (add_column c) t = record t { columns = append t.columns (c ∷ []) }
change (drop_column name) t = record t { columns = without_column name t.columns }

abbrev alter : TableAlter → Tables → Option TableSchema → Done
alter s tables none = (err "no such table", tables)
alter s tables (some t) = (ok tt, set s.table (some (change s.change t)) tables)

abbrev memory : SchemaManager
memory = record {
  Db = Tables;
  table = λ tables name. tables name;
  create_table = λ s tables. create s tables (tables s.table);
  create_index = λ s tables. index s tables (tables s.table);
  drop_index = λ s tables. unindex s tables (tables s.table);
  drop_table = λ s tables. (ok tt, set s.table none tables);
  alter_table = λ s tables. alter s tables (tables s.table);
}

memory-IsDocumented : IsDocumented memory
memory-IsDocumented = record {
  create_new = λ s db e. rw e (refl, rw (eq_refl s.table) refl);
  create_existing = λ s db t h e. rw (e, h) (refl, e);
  index_new = λ s db t e h. rw (e, h) (refl, rw (eq_refl s.table) refl);
  index_taken = λ s db t e h. ("index exists", rw (e, h) refl);
  index_dropped = λ s db t e h. rw e (refl, rw (eq_refl s.table) refl);
  table_dropped = λ s db h. (refl, rw (eq_refl s.table) refl);
  column_added = λ table c db t e h. rw e (refl, rw (eq_refl table) refl);
  column_dropped = λ table name db t e h. rw e (refl, rw (eq_refl table) refl);
}

abbrev nothing : Tables
nothing name = none

all_up-HasFields_example :
    (t : TableSchema) × Gives memory (all_up memory (migrations memory) nothing) table_name (some t)
    × HasFields t
all_up-HasFields_example = all_up-HasFields memory memory-IsDocumented nothing refl

all_down-all_up_example :
    Gives memory
      (◌>>◌ memory
        (all_up memory (migrations memory))
        (all_down memory (migrations memory))
        nothing)
      table_name
      none
all_down-all_up_example = all_down-all_up memory memory-IsDocumented nothing refl
