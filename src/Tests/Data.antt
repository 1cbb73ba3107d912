-- ===== src/Tests/Data.antt =====
-- The requests, the rows and the configuration of the runs.
use spark_plug.Common.{
  ℕ, pos, String, true, Option, none, some, List, [], ◌∷◌, Result, ok, if◌then◌else◌, ◌==◌,
  string_eq,
}
use spark_plug.Application.{State, launching, running, Model}
use spark_plug.Database.Memory.{memory}
use spark_plug.Http.{HeaderMap}
use spark_plug.Auth.{UserId, BearerToken}
use spark_plug.Config.{ProxyConfig, SparkVersion}
use spark_plug.Launcher.Names.{IoError, SparkLauncher}
use spark_plug.Proxy.Cache.{Cache}
use spark_plug.Routes.Api.{AppState, World}

-- A request with one header.
abbrev pub with_header : String → String → HeaderMap
with_header name value key = if key == name then some (ok value) else none

abbrev pub row : ℕ → String → State → String → Option String → Model
row id username state token address = record {
  id = pos id;
  created_at = pos 0;
  username = username;
  name = none;
  state = state;
  token = token;
  address = address;
  application_id = some "app-1";
}

-- Two applications of different users.
abbrev pub rows : List Model
rows = row 1 "ada" running "t1" (some "10.0.0.1:15002") ∷ row 2 "bob" launching "t2" none ∷ []

abbrev pub version : SparkVersion
version = record {
  name = "v4";
  home = "/opt/spark";
  master = some "yarn";
  deploy_mode = none;
  proxy_user = some true;
  env = none;
  default_configs = some (("spark.a", "1") ∷ ("spark.files", "hdfs://x") ∷ []);
  merge_configs = some (("spark.files", "hdfs://y") ∷ []);
  override_configs = some (("spark.b", "2") ∷ []);
  python_executable = none;
}

abbrev pub spark_launcher : SparkLauncher
spark_launcher = record {
  versions = version ∷ [];
  callback_addr = "http://10.0.0.9:8100";
  launch_timeout = 300;
  session_timeout = 3600;
  plugin_path = "/opt/plugin.jar";
}

abbrev pub config : ProxyConfig
config = record {
  bind_host = none;
  bind_port = none;
  callback_address = none;
  ui_url_template = some "ui";
  log_url_template = none;
  plugin_path = none;
  launch_timeout = none;
  session_timeout = none;
  store = none;
  kerberos_config = none;
  tls = none;
  spark_versions = none;
  auth_methods = none;
}

-- A server whose launches and messages to drivers have the given outcomes.
abbrev pub app_state : Result IoError (Unit {0}) → Result String (Unit {0}) → AppState
app_state launched reply = record {
  launcher = record {
    get_versions = "v4" ∷ [];
    launch = λ version id name user token configs packages. launched;
  };
  config = config;
  render = λ template app_id. app_id;
  send_session_message = λ address token message. reply;
}

abbrev pub cache : Cache
cache = record { connections = []; next = 0; spawned = [] }

abbrev pub world : World memory
world = record { db = rows; upstreams = cache; watched = [] }

abbrev pub ada : UserId
ada = record { name = "ada" }

abbrev pub bearer_t1 : BearerToken
bearer_t1 = record { token = "t1" }
