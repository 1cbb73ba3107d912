-- ===== src/Routes/Api.antt =====
-- server/src/routes.rs: the requests and answers of the API, and the columns and filters of its
-- statements.
use spark_plug.Common.{
  ℤ, String, Bool, true, false, ◌&&◌, ◌||◌, Option, none, some, List, [], ◌∷◌, ◌==◌, string_eq,
  int_eq, if◌then◌else◌, is_some, Result, ok, err, le_int,
}
use spark_plug.Map.{Map}
use spark_plug.Text.{split, trim}
use spark_plug.Application.{
  State, launching, running, failed, finished, state_eq, to_value, try_from_value, DateTime, Model,
}
use spark_plug.Database.{Database}
use spark_plug.Http.{Status, bad_request}
use spark_plug.Config.{ProxyConfig, render_ui_url, render_log_url}
use spark_plug.Launcher.Names.{IoError}
use spark_plug.Proxy.Cache.{Cache}

pub record CreateApplicationRequest : Type 0 where
  pub name : Option String
  pub version : Option String
  pub config : Option (Map String)
  pub python_packages : Option (List String)

pub record ListApplicationsRequest : Type 0 where
  pub state : Option String
  pub created_at_after : Option DateTime
  pub created_at_before : Option DateTime

pub record ApplicationInfo : Type 0 where
  pub id : ℤ
  pub name : Option String
  pub token : String
  pub state : String
  pub active : Bool
  pub ui_url : Option String
  pub log_url : Option String

pub record ApplicationCallbackRequest : Type 0 where
  pub address : String
  pub application_id : String

-- The trait `Launcher` of server/src/launcher.rs. A launch that succeeds gives a task to wait for.
pub record Launcher : Type 0 where
  pub get_versions : List String
  pub launch :
      Option String
      → ℤ
      → Option String
      → String
      → String
      → Map String
      → Option (List String)
      → Result IoError (Unit {0})

-- `AppStateDyn` without the database and the cache; `render!` of `minijinja`, and
-- `send_session_message` of server/src/proxy.rs with the network behind it.
pub record AppState : Type 0 where
  pub launcher : Launcher
  pub config : ProxyConfig
  pub render : String → String → String
  pub send_session_message : String → String → String → Result String (Unit {0})

-- What the handlers change; `watched` are the applications whose launch a task waits for.
pub record World (D : Database) : Type 0 where
  pub db : D.Db
  pub upstreams : Cache
  pub watched : List ℤ

-- The response of `create_app`, `get_app` and `list_apps` for a row.
unfoldable pub info : AppState → Model → ApplicationInfo
info s app = record {
  id = app.id;
  name = app.name;
  token = app.token;
  state = to_value app.state;
  active = is_some app.address;
  ui_url = render_ui_url s.render s.config app.application_id;
  log_url = render_log_url s.render s.config app.application_id;
}

-- The columns that the statements set.
abbrev pub set_failed : Model → Model
set_failed m = record m { state = failed }

abbrev pub set_finished : Model → Model
set_finished m = record m { address = none; state = finished }

abbrev pub set_running : ApplicationCallbackRequest → Model → Model
set_running params m = record m {
  address = some params.address;
  state = running;
  application_id = some params.application_id;
}

-- The filters of the queries.
abbrev pub is_owned : String → ℤ → Model → Bool
is_owned username app_id m = m.username == username && m.id == app_id

abbrev pub is_launching : ℤ → Model → Bool
is_launching app_id m = m.id == app_id && state_eq m.state launching

-- The loop of `list_apps` over the pieces of the state filter.
unfoldable pub parse_states : List String → Result Status (List State)
parse_states [] = ok []
parse_states (piece ∷ pieces) =
    let rest = parse_states pieces in
    if trim piece == "" then rest else (elim (try_from_value (trim piece)) [
      | none ↦ err bad_request
      | some parsed ↦ elim rest [ ok states ↦ ok (parsed ∷ states) | err e ↦ err e ]
    ])

unfoldable pub state_filter : Option String → Result Status (List State)
unfolding parse_states
state_filter none = ok []
state_filter (some state_filters) = parse_states (split b',' state_filters)

-- `Column::State.is_in`, which is left out for an empty list.
abbrev pub is_in : List State → State → Bool
is_in [] s = false
is_in (t ∷ ts) s = state_eq s t || is_in ts s

abbrev pub has_state : List State → Model → Bool
has_state [] m = true
has_state (s ∷ ss) m = is_in (s ∷ ss) m.state

abbrev pub is_after : Option DateTime → Model → Bool
is_after none m = true
is_after (some t) m = le_int t m.created_at

abbrev pub is_before : Option DateTime → Model → Bool
is_before none m = true
is_before (some t) m = le_int m.created_at t

abbrev pub is_listed : String → List State → Option DateTime → Option DateTime → Model → Bool
is_listed username states after before m =
    m.username == username && (has_state states m && (is_after after m && is_before before m))
