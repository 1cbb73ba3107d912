-- ===== src/Tests/Setup.antt =====
-- A server that is made, and a session that it starts.
use spark_plug.Common.{String, ◌≡◌, refl, true, false, none, some, [], ◌∷◌, ok, err, arith}
use spark_plug.Map.{get}
use spark_plug.Database.Memory.{memory}
use spark_plug.Auth.{current_user}
use spark_plug.Application.{Model, launching}
use spark_plug.Text.{split, trim, contains, starts_with}
use spark_plug.Launcher.Files.{validate_file_configs}
use spark_plug.Auth.{from_config as user_auth}
use spark_plug.Config.{ProxyConfig, Figment, create, get_callback_addr}
use spark_plug.Launcher.Launch.{Host, launch}
use spark_plug.Launcher.Command.{build_submit_command}
use spark_plug.Launcher.Setup.{Machine, default_version}
use spark_plug.Launcher.Setup.{from_config as spark_launcher}
use spark_plug.Routes.Api.{AppState, CreateApplicationRequest, info}
use spark_plug.Routes.{create_app, after_launch}
use spark_plug.Server.Start.{Resources, Server, load_tls_acceptor, from_config, app_state}
use spark_plug.Server.{prune, prune_at, cutoff_at, cutoff_seconds, as_i64, saturating_sub}
use spark_plug.Server.Start.{Commands, Args, ProxyCommand, main, execute}
use spark_plug.Server.Start.Pruned.{IsPruned, main-IsPruned}
use spark_plug.Server.Start.Sessions.{IsDriven, create_app-IsDriven}
use spark_plug.Text.Show.{show}
use spark_plug.Tests.Server.{table}
use spark_plug.Tests.Auth.{identity}
use spark_plug.Tests.Data.{world, rows, ada, config, cache, row}
use spark_plug.Tests.Data.{spark_launcher as launcher}

-- A machine where Spark is found by `SPARK_HOME`.
abbrev machine : Machine
machine = record {
  which = λ name. none;
  var = λ name. some "/opt/spark";
  output = λ program. err "not found";
  parent = λ path. none;
  exists = λ path. true;
  local_ip = ok "10.0.0.9";
  embedded_plugin = some (ok "/tmp/plugin.jar");
  manifest_dir = "/src/server";
}

abbrev resources : Resources memory
resources = record {
  Certs = String;
  Key = String;
  connect = λ url. ok table;
  certs = λ path. ok path;
  private_key = λ path. ok (some path);
  single_cert = λ certs key. ok tt;
}

abbrev secured : ProxyConfig
secured = record config { tls = some (record { key = "key.pem"; cert = "cert.pem" }) }

-- The server of this configuration.
abbrev server : Server resources
server = record {
  config = secured;
  auth_methods = current_user identity ∷ [];
  launcher = record {
    versions = default_version "/opt/spark" none ∷ [];
    callback_addr = "https://10.0.0.9:8100";
    launch_timeout = 300;
    session_timeout = 3600;
    plugin_path = "/tmp/plugin.jar";
  };
  db = table;
  upstreams = cache;
  tls_acceptor =
      some
        (record { certs = "cert.pem"; key = "key.pem"; alpn_protocols = "h2" ∷ "http/1.1" ∷ [] });
}

-- A host where every program succeeds.
abbrev host : Host
host = record {
  windows = false;
  macos = false;
  tempdir = ok "/tmp/venv";
  status = λ program args. ok true;
  spawn = λ program args env. ok tt;
}

abbrev running_server : AppState
running_server = app_state host (λ template id. id) (λ address token message. ok tt) launcher config

abbrev request : CreateApplicationRequest
request = record { name = some "job"; version = some "v4"; config = none; python_packages = none }

abbrev created : Model
created = record (row 3 "ada" launching "t3" none) { name = some "job"; application_id = none }

creates :
    (create_app memory running_server "t3" ada request world).0 ≡ ok (info running_server created)
unfolding create_app after_launch launch build_submit_command validate_file_configs get split trim
    contains starts_with
creates = refl

create_app-IsDriven_example :
    IsDriven memory host launcher config
      (λ template id. id)
      (λ address token message. ok tt)
      "t3"
      ada
      request
      world
      (info running_server created)
create_app-IsDriven_example =
    create_app-IsDriven memory host launcher config (λ template id. id)
      (λ address token message. ok tt) "t3" ada request world (info running_server created) creates

-- A file and an environment without settings, read as that configuration.
abbrev figment : Figment
figment = record {
  Value = String;
  yaml_file = λ path. ok [];
  env_prefixed = λ prefix. ok [];
  merge = λ m n. m;
  extract = λ values. ok secured;
}

abbrev commands : Commands resources
commands = record {
  figment = figment;
  ensure_db = λ db. (ok tt, db);
  serve = λ s db. (ok tt, db);
  health = λ id address token n. ok tt;
  from_timestamp = λ seconds. some seconds;
  now = ok 1000;
}

abbrev arguments : Args
arguments = record { config_file = some "config.yml"; command = some (ProxyCommand.prune 60) }

ends : main resources commands identity machine arguments ≡ ok (ok tt, rows)
unfolding main create from_config spark_launcher user_auth get_callback_addr load_tls_acceptor show
    execute prune prune_at cutoff_at cutoff_seconds as_i64 saturating_sub
ends = refl

main-IsPruned_example : IsPruned resources commands arguments 1000 60 rows
main-IsPruned_example =
    main-IsPruned resources commands identity machine arguments 1000 60 (ok tt, rows) (λ db. refl)
      refl (omega arith) (omega arith) refl ends refl
