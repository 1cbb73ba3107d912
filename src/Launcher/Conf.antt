-- ===== src/Launcher/Conf.antt =====
-- server/src/launcher.rs: `build_conf`, and what `build_submit_command` adds to it.
use Prim.Native.String.{◌++◌}
pub mod Layers
pub mod Internal
pub mod Lookup
use spark_plug.Common.{
  ℤ, String, not, Option, none, some, [], ◌∷◌, ◌==◌, string_eq, nat_eq, if◌then◌else◌, unwrap_or,
}
use spark_plug.Map.{Map, get, insert, extend, contains_key}
use spark_plug.Text.Show.{show, show_int}
use spark_plug.Config.{SparkVersion}
use spark_plug.Launcher.Names.{
  app_name_config, token_config, callback_config, timeout_config, listener_config,
  interceptor_config, grpc_port_config, archives_config, python_config, listener_class,
  interceptor_class, SparkLauncher,
}

-- One round of the loop of `build_conf` over `merge_configs`.
abbrev pub joined : Option String → String → String
joined (some existing) value = existing ++ ("," ++ value)
joined none value = value

merge_into : Map String → Map String → Map String
merge_into configs [] = configs
merge_into configs ((key, value) ∷ rest) =
    merge_into (insert configs key (joined (get configs key) value)) rest

unfoldable pub build_conf : SparkVersion → Map String → Map String
unfolding merge_into
build_conf version user_config =
    let configs = extend (unwrap_or version.default_configs []) user_config in
    let merged = merge_into configs (unwrap_or version.merge_configs []) in
    extend merged (unwrap_or version.override_configs [])

-- `build_submit_command`: the name of the application.
pub set_app_name : ℤ → Option String → Map String → Map String
set_app_name session_id (some app_name) configs = insert configs app_name_config app_name
set_app_name session_id none configs =
    if not (contains_key configs app_name_config)
    then insert configs app_name_config ("spark-plug-session-" ++ show_int session_id)
    else configs

-- `build_submit_command`: the configs of the server itself.
pub set_internal : SparkLauncher → String → Map String → Map String
set_internal l token configs =
    let c1 = insert configs token_config token in
    let c2 = insert c1 callback_config l.callback_addr in
    let c3 = insert c2 timeout_config (show l.session_timeout) in
    let c4 = insert c3 listener_config listener_class in
    let c5 = insert c4 interceptor_config interceptor_class in insert c5 grpc_port_config "0"

abbrev pub archives_with : Option String → String → String
archives_with (some archives) venv_archive =
    if not (archives == "") then archives ++ ("," ++ venv_archive) else venv_archive
archives_with none venv_archive = venv_archive

-- `build_submit_command`: the packed Python environment.
pub set_venv : Option String → Map String → Map String
set_venv none configs = configs
set_venv (some venv_tarball) configs =
    let venv_archive = venv_tarball ++ "#environment" in
    insert
      (insert configs archives_config (archives_with (get configs archives_config) venv_archive))
      python_config "../environment/bin/python"

-- All the configs of the command.
unfoldable pub submit_conf :
    SparkLauncher
    → SparkVersion
    → ℤ
    → Option String
    → String
    → Map String
    → Option String
    → Map String
unfolding build_conf set_app_name set_internal set_venv
submit_conf l version session_id app_name token user_config venv_tarball =
    set_venv venv_tarball
      (set_internal l token (set_app_name session_id app_name (build_conf version user_config)))
