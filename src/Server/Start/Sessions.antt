-- ===== src/Server/Start/Sessions.antt =====
-- `create_app` of server/src/routes.rs with the launcher of server/src/launcher.rs behind it.
use spark_plug.Common.{String, ◌≡◌, refl, List, [], Result, ok, In, inl, ap, sym, ◌∙◌, unwrap_or}
use spark_plug.Map.{Map}
use spark_plug.Application.{Model}
use spark_plug.Database.{Database}
use spark_plug.Auth.{UserId}
use spark_plug.Config.{ProxyConfig, SparkVersion}
use spark_plug.Launcher.Names.{SparkLauncher, token_config, callback_config}
use spark_plug.Launcher.Command.{submit_path}
use spark_plug.Launcher.Command.Args.{HasConf, command-HasConf}
use spark_plug.Launcher.Conf.Internal.{submit_conf-IsInternal}
use spark_plug.Launcher.Launch.{Host}
use spark_plug.Launcher.Launch.Spawned.{IsSpawned, launch-IsSpawned}
use spark_plug.Routes.Api.{World, CreateApplicationRequest, ApplicationInfo, info}
use spark_plug.Routes.{create_app}
use spark_plug.Routes.Create.{IsCreated, IsCreated-of_launch, create_app_ok}
use spark_plug.Server.Start.{app_state}

module _ (D : Database) (host : Host) (l : SparkLauncher) (config : ProxyConfig)
    (render : String → String → String) (send : String → String → String → Result String (Unit {0}))
    (token : String) (user : UserId) (params : CreateApplicationRequest) (w : World D) where
  -- The row of an answered request, and the process that was started for it.
  pub record IsDriven (i : ApplicationInfo) : Type 0 where
    pub row : Model
    pub listed :
        In row
          (D.rows (create_app D (app_state host render send l config) token user params w).1.db)
    pub id : row.id ≡ i.id
    pub row_token : row.token ≡ token
    pub info_token : i.token ≡ token
    pub version : SparkVersion
    pub offered : In version l.versions
    pub args : List String
    pub env : Map String
    pub spawned : host.spawn (submit_path version) args env ≡ ok tt
    pub token_passed : HasConf args token_config token
    pub callback_passed : HasConf args callback_config l.callback_addr

  abbrev configs : Map String
  configs = unwrap_or params.config []

  IsDriven-by :
      (m : Model) (i : ApplicationInfo)
      → info (app_state host render send l config) m ≡ i
      → IsCreated D
          (app_state host render send l config)
          token
          user
          params
          w
          (info (app_state host render send l config) m)
          (create_app D (app_state host render send l config) token user params w).1
      → IsSpawned host l params.version m.id params.name user.name token configs
          params.python_packages
      → IsDriven i
  unfolding info
  IsDriven-by m i same c p =
      let internal = submit_conf-IsInternal l p.version m.id params.name token configs p.venv in
      let answer : info (app_state host render send l config) c.row ≡ i = sym c.info ∙ same in
      record {
        row = c.row;
        listed = rw c.rows (inl refl);
        id = ap (λ x. x.id) answer;
        row_token = c.inserted.token;
        info_token = sym (ap (λ x. x.token) answer) ∙ c.inserted.token;
        version = p.version;
        offered = p.listed;
        args = p.args;
        env = p.env;
        spawned = p.spawned;
        token_passed =
            command-HasConf l p.version m.id params.name user.name token configs p.venv token_config
              token p.command internal.token;
        callback_passed =
            command-HasConf l p.version m.id params.name user.name token configs p.venv
              callback_config l.callback_addr p.command internal.callback;
      }

  -- An application that `create_app` answers with is a row of the table, and a spark-submit of one
  -- of the versions was started for it that passes the token of the row, which is also the one of
  -- the answer, and the server's callback address.
  pub create_app-IsDriven :
      (i : ApplicationInfo)
      → (create_app D (app_state host render send l config) token user params w).0 ≡ ok i
      → IsDriven i
  create_app-IsDriven i e =
      let s = app_state host render send l config in
      let (m, u, inserted, launched, same) = create_app_ok D s token user params w i e in
      IsDriven-by m i same (IsCreated-of_launch D s token user params w m u inserted launched) (
        launch-IsSpawned host l params.version m.id params.name user.name token configs
          params.python_packages launched)
