-- ===== src/Launcher/Command.antt =====
-- server/src/launcher.rs: `build_submit_command`.
pub mod Args
use Prim.Native.String.{◌++◌}
use spark_plug.Common.{
  ℤ, String, Bool, false, ◌&&◌, ◌||◌, Option, none, some, List, [], ◌∷◌, ◌++◌ as append, ◌==◌,
  string_eq, nat_eq, code, if◌then◌else◌, unwrap_or, Result, ok, ◌>>◌,
}
use spark_plug.Map.{Map}
use spark_plug.Config.{SparkVersion}
use spark_plug.Launcher.Names.{server_class, IoError, SparkLauncher}
use spark_plug.Launcher.Conf.{submit_conf}
use spark_plug.Launcher.Files.{validate_file_configs}

abbrev pub option_args : String → Option String → List String
option_args flag none = []
option_args flag (some value) = flag ∷ value ∷ []

-- The loop over the configs.
unfoldable pub conf_args : Map String → List String
conf_args [] = []
conf_args ((key, value) ∷ configs) = "--conf" ∷ (key ++ ("=" ++ value)) ∷ conf_args configs

abbrev pub proxy_user_args : SparkVersion → String → List String
proxy_user_args version username =
    if unwrap_or version.proxy_user false then "--proxy-user" ∷ username ∷ [] else []

unfoldable pub submit_args : SparkLauncher → SparkVersion → String → Map String → List String
unfolding conf_args
submit_args l version username configs = append (option_args "--master" version.master) (
    append (option_args "--deploy-mode" version.deploy_mode) (
      append (conf_args configs) (
        append ("--class" ∷ server_class ∷ [])
          (append (proxy_user_args version username) (l.plugin_path ∷ [])))))

ends_with_slash : String → Bool
ends_with_slash String.[] = false
ends_with_slash (String.◌∷◌ c s) = (s == "" && code c == b'/') || ends_with_slash s

-- `PathBuf::join` with a relative name.
join : String → String → String
unfolding ends_with_slash
join path name = if path == "" || ends_with_slash path then path ++ name else path ++ ("/" ++ name)

unfoldable pub submit_path : SparkVersion → String
unfolding join
submit_path version = join (join version.home "bin") "spark-submit"

unfoldable pub build_submit_command :
    SparkLauncher
    → SparkVersion
    → ℤ
    → Option String
    → String
    → String
    → Map String
    → Option String
    → Result IoError (String × List String)
unfolding validate_file_configs submit_conf submit_args submit_path
build_submit_command l version session_id app_name username token user_config venv_tarball = do
  validate_file_configs user_config
  let configs = submit_conf l version session_id app_name token user_config venv_tarball
  ok (submit_path version, submit_args l version username configs)
