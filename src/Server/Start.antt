-- ===== src/Server/Start.antt =====
-- server/src/lib.rs: `Server::from_config` and `load_tls_acceptor`, and `main` of
-- server/src/main.rs. The parts that other crates read are the parameter `Resources`.
pub mod Made
pub mod Sessions
pub mod Pruned
use spark_plug.Common.{
  ℕ, ℤ, String, Bool, Option, none, some, List, [], ◌∷◌, Result, ok, err, ◌>>=◌, ok_or, unwrap_or,
}
use spark_plug.Map.{Map}
use spark_plug.Application.{DateTime}
use spark_plug.Database.{Database}
use spark_plug.Auth.{Identity, UserAuthMethod}
use spark_plug.Auth.{from_config as user_auth}
use spark_plug.Config.{ProxyConfig, TlsConfig, Figment, create}
use spark_plug.Launcher.Names.{SparkLauncher}
use spark_plug.Launcher.Launch.{Host, launch, get_versions}
use spark_plug.Launcher.Setup.{Machine}
use spark_plug.Launcher.Setup.{from_config as spark_launcher}
use spark_plug.Proxy.Cache.{Cache, new}
use spark_plug.Routes.Api.{AppState, Launcher}
use spark_plug.Server.{Health}
use spark_plug.Server.{prune as delete_ended, check as check_running}

-- `Args` and `ProxyCommand`
pub data ProxyCommand : Type 0 where
  start check : ProxyCommand
  prune : ℕ → ProxyCommand

pub record Args : Type 0 where
  pub config_file : Option String
  pub command : Option ProxyCommand

-- `rustls`, the files of its certificates and keys, and the connection to the database.
pub record Resources (D : Database) : Type 1 where
  pub Certs : Type 0
  pub Key : Type 0
  pub connect : String → Result String D.Db
  -- `certs` of the opened file, and `private_key`
  pub certs : String → Result String Certs
  pub private_key : String → Result String (Option Key)
  -- the builder's `with_safe_default_protocol_versions` and `with_single_cert`
  pub single_cert : Certs → Key → Result String (Unit {0})

-- The `rustls::ServerConfig` of an acceptor.
pub record TlsAcceptor {D : Database} (R : Resources D) : Type 0 where
  pub certs : R.Certs
  pub key : R.Key
  pub alpn_protocols : List String

module _ {D : Database} (R : Resources D) where
  unfoldable pub tls_acceptor : TlsConfig → Result String (TlsAcceptor R)
  tls_acceptor tls = do
    certs ← R.certs tls.cert
    found ← R.private_key tls.key
    key ← ok_or found "called `Option::unwrap()` on a `None` value"
    fits ← R.single_cert certs key
    ok (record { certs = certs; key = key; alpn_protocols = "h2" ∷ "http/1.1" ∷ [] })

  unfoldable pub acceptor_if : Option TlsConfig → Result String (Option (TlsAcceptor R))
  unfolding tls_acceptor
  acceptor_if none = ok none
  acceptor_if (some tls) = do acceptor ← tls_acceptor tls; ok (some acceptor)

  unfoldable pub load_tls_acceptor : ProxyConfig → Result String (Option (TlsAcceptor R))
  unfolding acceptor_if
  load_tls_acceptor config = acceptor_if config.tls

  pub record Server : Type 0 where
    pub config : ProxyConfig
    pub auth_methods : List UserAuthMethod
    pub launcher : SparkLauncher
    pub db : D.Db
    pub upstreams : Cache
    pub tls_acceptor : Option (TlsAcceptor R)

  -- A panic of a part is an error here.
  unfoldable pub from_config : Identity → Machine → ProxyConfig → Result String Server
  unfolding load_tls_acceptor
  from_config I machine config = do
    db ← R.connect (unwrap_or config.store "sqlite::memory:")
    launcher ← spark_launcher machine config
    methods ← user_auth I config.auth_methods
    acceptor ← load_tls_acceptor config
    ok (record {
      config = config;
      auth_methods = methods;
      launcher = launcher;
      db = db;
      upstreams = new;
      tls_acceptor = acceptor;
    })

-- The `AppStateDyn` that `get_router` makes: the launcher runs its processes on the host.
abbrev pub app_state :
    Host
    → (String → String → String)
    → (String → String → String → Result String (Unit {0}))
    → SparkLauncher
    → ProxyConfig
    → AppState
app_state host render send l config = record {
  launcher = record { get_versions = get_versions l; launch = launch host l };
  config = config;
  render = render;
  send_session_message = send;
}

-- What the commands of `main` need besides: the source of the configuration, the migrations, the health of the
-- applications, and the clock. `serve` is what `run` does after the migrations.
pub record Commands {D : Database} (R : Resources D) : Type 1 where
  pub figment : Figment
  pub ensure_db : D.Db → Result String (Unit {0}) × D.Db
  pub serve : Server R → D.Db → Result String (Unit {0}) × D.Db
  pub health : Health
  pub from_timestamp : ℤ → Option DateTime
  pub now : Result String ℕ

module _ {D : Database} (R : Resources D) (C : Commands R) where
  abbrev migrated :
      (D.Db → Result String (Unit {0}) × D.Db)
      → Result String (Unit {0}) × D.Db
      → Result String (Unit {0}) × D.Db
  migrated next (ok u, db) = next db
  migrated next (err e, db) = (err e, db)

  -- The number of rows is only logged.
  abbrev logged : Result String ℕ × D.Db → Result String (Unit {0}) × D.Db
  logged (ok n, db) = (ok tt, db)
  logged (err e, db) = (err e, db)

  unfoldable pub execute : ProxyCommand → Server R → Result String (Unit {0}) × D.Db
  execute start s = migrated (C.serve s) (C.ensure_db s.db)
  execute (prune seconds) s =
      migrated (λ db. logged (delete_ended D C.from_timestamp C.now seconds db)) (C.ensure_db s.db)
  execute check s = migrated (λ db. logged (check_running D C.health db)) (C.ensure_db s.db)

  -- `main`; where no server is made, there is no database.
  unfoldable pub main : Identity → Machine → Args → Result String (Result String (Unit {0}) × D.Db)
  unfolding execute from_config
  main I machine args = do
    config ← create C.figment args.config_file
    server ← from_config R I machine config
    ok (execute (unwrap_or args.command start) server)
