-- ===== src/Launcher/Conf/Internal.antt =====
-- The configs that the server sets itself (server/src/launcher.rs, `build_submit_command`).
use Prim.Native.String.{◌++◌}
use spark_plug.Common.{
  ℤ, String, ◌≡◌, refl, Option, none, some, arith, string_eq, unwrap_or, or_else, Option-cases, inl,
  inr,
}
use spark_plug.Map.{Map, IsMap, get, contains_key, get-insert, insert-IsMap}
use spark_plug.Text.Show.{show, show_int}
use spark_plug.Config.{SparkVersion}
use spark_plug.Launcher.Names.{
  SparkLauncher, app_name_config, token_config, callback_config, timeout_config, listener_config,
  interceptor_config, grpc_port_config, archives_config, python_config, listener_class,
  interceptor_class,
}
use spark_plug.Launcher.Conf.{
  build_conf, set_app_name, set_internal, set_venv, archives_with, submit_conf,
}
use spark_plug.Launcher.Conf.Layers.{IsVersion, build_conf-IsMap}

-- What the server's plugin relies on.
pub record IsInternal (l : SparkLauncher) (tok : String) (configs : Map String) : Type 0 where
  pub token : get configs token_config ≡ some tok
  pub callback : get configs callback_config ≡ some l.callback_addr
  pub timeout : get configs timeout_config ≡ some (show l.session_timeout)
  pub listener : get configs listener_config ≡ some listener_class
  pub interceptor : get configs interceptor_config ≡ some interceptor_class
  pub grpc_port : get configs grpc_port_config ≡ some "0"

set_internal-IsInternal :
    (l : SparkLauncher) (token : String) (configs : Map String)
    → IsInternal l token (set_internal l token configs)
unfolding set_internal
set_internal-IsInternal l token configs = record {
  token = simp get-insert;
  callback = simp get-insert;
  timeout = simp get-insert;
  listener = simp get-insert;
  interceptor = simp get-insert;
  grpc_port = simp get-insert;
}

set_venv-IsInternal :
    (l : SparkLauncher) (token : String) (venv : Option String) (configs : Map String)
    → IsInternal l token configs
    → IsInternal l token (set_venv venv configs)
unfolding set_venv
set_venv-IsInternal l token none configs h = h
set_venv-IsInternal l token (some v) configs h = record {
  token = simp get-insert h.token;
  callback = simp get-insert h.callback;
  timeout = simp get-insert h.timeout;
  listener = simp get-insert h.listener;
  interceptor = simp get-insert h.interceptor;
  grpc_port = simp get-insert h.grpc_port;
}

-- Whatever the user, the version's defaults and its overrides say, the command has the server's
-- own values of its six internal configs.
pub submit_conf-IsInternal :
    (l : SparkLauncher) (v : SparkVersion) (session_id : ℤ) (app_name : Option String)
    (token : String) (user_config : Map String) (venv : Option String)
    → IsInternal l token (submit_conf l v session_id app_name token user_config venv)
unfolding submit_conf
submit_conf-IsInternal l v session_id app_name token user_config venv =
    set_venv-IsInternal l token venv _ (
      set_internal-IsInternal l token (set_app_name session_id app_name (build_conf v user_config)))

set_app_name-IsMap :
    (i : ℤ) (name : Option String) (configs : Map String)
    → IsMap configs
    → IsMap (set_app_name i name configs)
unfolding set_app_name
set_app_name-IsMap i (some n) configs h = insert-IsMap configs app_name_config n h
set_app_name-IsMap i none configs h =
    ground (arith, insert-IsMap configs app_name_config ("spark-plug-session-" ++ show_int i) h)

set_internal-IsMap :
    (l : SparkLauncher) (token : String) (configs : Map String)
    → IsMap configs
    → IsMap (set_internal l token configs)
unfolding set_internal
set_internal-IsMap l token configs h = insert-IsMap _ grpc_port_config "0" (
    insert-IsMap _ interceptor_config interceptor_class (
      insert-IsMap _ listener_config listener_class (
        insert-IsMap _ timeout_config (show l.session_timeout) (
          insert-IsMap _ callback_config l.callback_addr
            (insert-IsMap configs token_config token h)))))

set_venv-IsMap :
    (venv : Option String) (configs : Map String) → IsMap configs → IsMap (set_venv venv configs)
unfolding set_venv
set_venv-IsMap none configs h = h
set_venv-IsMap (some v) configs h = insert-IsMap _ python_config "../environment/bin/python" (
    insert-IsMap configs archives_config
      (archives_with (get configs archives_config) (v ++ "#environment")) h)

pub submit_conf-IsMap :
    (l : SparkLauncher) (v : SparkVersion) (session_id : ℤ) (app_name : Option String)
    (token : String) (user_config : Map String) (venv : Option String)
    → IsVersion v
    → IsMap (submit_conf l v session_id app_name token user_config venv)
unfolding submit_conf
submit_conf-IsMap l v session_id app_name token user_config venv h = set_venv-IsMap venv _ (
    set_internal-IsMap l token _
      (set_app_name-IsMap session_id app_name _ (build_conf-IsMap v user_config h)))

get-set_app_name_archives :
    (i : ℤ) (name : Option String) (configs : Map String)
    → get (set_app_name i name configs) archives_config ≡ get configs archives_config
unfolding set_app_name
get-set_app_name_archives i (some n) configs = simp get-insert
get-set_app_name_archives i none configs = ground (
  arith,
  get-insert configs app_name_config archives_config ("spark-plug-session-" ++ show_int i),
)

-- A packed Python environment is added to the archives of the configuration: behind a comma where
-- there are some, alone where there are none.
pub get-submit_conf_archives :
    (l : SparkLauncher) (v : SparkVersion) (session_id : ℤ) (app_name : Option String)
    (token : String) (user_config : Map String) (venv : String)
    → get (submit_conf l v session_id app_name token user_config (some venv)) archives_config
      ≡ some
          (archives_with (get (build_conf v user_config) archives_config) (venv ++ "#environment"))
unfolding submit_conf set_venv
get-submit_conf_archives l v session_id app_name token user_config venv =
    simp (get-insert, get-set_app_name_archives)

get-set_app_name :
    (i : ℤ) (name : Option String) (configs : Map String)
    → get (set_app_name i name configs) app_name_config
      ≡ some (
          unwrap_or
            (or_else name (get configs app_name_config))
            ("spark-plug-session-" ++ show_int i))
unfolding set_app_name contains_key
get-set_app_name i (some n) configs = simp get-insert
get-set_app_name i none configs = elim (Option-cases (get configs app_name_config)) [
  | inl absent ↦ rw absent (simp get-insert)
  | inr (n, present) ↦ rw present present
]

get-set_internal_app_name :
    (l : SparkLauncher) (token : String) (configs : Map String)
    → get (set_internal l token configs) app_name_config ≡ get configs app_name_config
unfolding set_internal
get-set_internal_app_name l token configs = simp get-insert

get-set_venv_app_name :
    (venv : Option String) (configs : Map String)
    → get (set_venv venv configs) app_name_config ≡ get configs app_name_config
unfolding set_venv
get-set_venv_app_name none configs = refl
get-set_venv_app_name (some v) configs = simp get-insert

-- The session's name: the request's, or else the configuration's, or else one made of its id.
pub get-submit_conf_app_name :
    (l : SparkLauncher) (v : SparkVersion) (session_id : ℤ) (app_name : Option String)
    (token : String) (user_config : Map String) (venv : Option String)
    → get (submit_conf l v session_id app_name token user_config venv) app_name_config
      ≡ some (
          unwrap_or
            (or_else app_name (get (build_conf v user_config) app_name_config))
            ("spark-plug-session-" ++ show_int session_id))
unfolding submit_conf
get-submit_conf_app_name l v session_id app_name token user_config venv =
    simp (get-set_venv_app_name, get-set_internal_app_name, get-set_app_name)
