-- ===== src/Application.antt =====
-- server/src/entities/application.rs: the lifecycle states and the rows of the application table.
use spark_plug.Common.{
  ℤ, String, ◌≡◌, refl, Bool, true, false, Option, none, some, arith, ◌==◌, eq_iff, string_eq,
  if◌then◌else◌, List, [], ◌∷◌,
}

pub data State : Type 0 where
  launching running failed finished : State

-- The text of a state in the database and in the API, `rename_all = "UPPERCASE"`.
unfoldable pub to_value : State → String
to_value launching = "LAUNCHING"
to_value running = "RUNNING"
to_value failed = "FAILED"
to_value finished = "FINISHED"

unfoldable pub try_from_value : String → Option State
try_from_value s =
    if s == "LAUNCHING"
    then some launching
    else if s == "RUNNING"
    then some running
    else if s == "FAILED"
    then some failed
    else if s == "FINISHED"
    then some finished
    else none

-- The derived `PartialEq`.
abbrev pub state_eq : State → State → Bool
state_eq launching launching = true
state_eq running running = true
state_eq failed failed = true
state_eq finished finished = true
state_eq _ _ = false

-- A point in time, in nanoseconds since the Unix epoch.
abbrev pub DateTime : Type 0
DateTime = ℤ

pub record Model : Type 0 where
  pub id : ℤ
  pub created_at : DateTime
  pub username : String
  pub name : Option String
  pub state : State
  pub token : String
  pub address : Option String
  pub application_id : Option String

pub try_from_value-to_value : (s : State) → try_from_value (to_value s) ≡ some s
unfolding try_from_value to_value
try_from_value-to_value launching = refl
try_from_value-to_value running = refl
try_from_value-to_value failed = refl
try_from_value-to_value finished = refl

-- Only the text of a state is read as that state.
pub to_value_of_try_from_value :
    (t : String) (s : State) → try_from_value t ≡ some s → t ≡ to_value s
unfolding try_from_value to_value
to_value_of_try_from_value t s h =
    ground (arith, eq_iff t "LAUNCHING", eq_iff t "RUNNING", eq_iff t "FAILED", eq_iff t "FINISHED")

-- The columns that `DeriveEntityModel` makes of the fields of `Model`, with the types of the fields;
-- the database has a `State` as text.
pub data FieldType : Type 0 where
  primary_key date_time_utc text optional_text : FieldType

abbrev pub fields : List (String × FieldType)
fields =
    ("id", primary_key)
    ∷ ("created_at", date_time_utc)
    ∷ ("username", text)
    ∷ ("name", optional_text)
    ∷ ("state", text)
    ∷ ("token", text)
    ∷ ("address", optional_text)
    ∷ ("application_id", optional_text)
    ∷ []

abbrev pub table_name : String
table_name = "application"
