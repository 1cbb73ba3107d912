-- ===== src/Plugin/Launched.antt =====
-- The driver that the launcher of server/src/launcher.rs starts, as the listener of the Spark
-- plugin reads its configuration.
use spark_plug.Common.{ℕ, ℤ, String, ◌≡◌, refl, Option, some, Result, ok}
use spark_plug.Map.{Map, get}
use spark_plug.Text.Show.{show}
use spark_plug.Config.{SparkVersion}
use spark_plug.Launcher.Names.{SparkLauncher, token_config, callback_config, timeout_config}
use spark_plug.Launcher.Conf.{submit_conf}
use spark_plug.Launcher.Conf.Internal.{submit_conf-IsInternal}
use spark_plug.Plugin.{listener_of}

module _ (l : SparkLauncher) (v : SparkVersion) (session_id : ℤ) (app_name : Option String)
    (token : String) (user_config : Map String) (venv : Option String)
    (conf : String → Option String) (seconds : String → Result String ℕ)
    (application_id : String) where
  abbrev configs : Map String
  configs = submit_conf l v session_id app_name token user_config venv

  -- A driver that has the configs that its command passes, whatever the user and the version say,
  -- and whose Spark reads the timeout, a bare number, as so many seconds, has a listener with the session's
  -- token, the server's callback address and its timeout.
  pub launched_listener :
      ((key value : String) → get configs key ≡ some value → conf key ≡ some value)
      → seconds (show l.session_timeout) ≡ ok l.session_timeout
      → listener_of conf seconds application_id
        ≡ ok (record {
          callback_addr = l.callback_addr;
          token = token;
          idle_timeout = some l.session_timeout;
          application_id = application_id;
        })
  unfolding listener_of
  launched_listener passed read =
      let h = submit_conf-IsInternal l v session_id app_name token user_config venv in
      rw
        (
          passed callback_config l.callback_addr h.callback,
          passed token_config token h.token,
          passed timeout_config (show l.session_timeout) h.timeout,
          read,
        )
        refl
