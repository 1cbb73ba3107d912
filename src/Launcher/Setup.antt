-- ===== src/Launcher/Setup.antt =====
-- server/src/launcher.rs: `SparkLauncher::from_config` and `find_default_spark_home`. What the
-- machine answers is the parameter `Machine`; a panic is an error, and the server does not start.
pub mod Ready
use Prim.Native.String.{◌++◌}
use spark_plug.Common.{
  ℕ, String, Bool, true, false, not, Option, none, some, List, [], ◌∷◌, if◌then◌else◌, Result, ok,
  err, ◌>>=◌, ◌>>◌, ok_or, unwrap_or, string_eq, ◌==◌,
}
use spark_plug.Text.{trim_end}
use spark_plug.Config.{SparkVersion, ProxyConfig, get_callback_addr}
use spark_plug.Launcher.Names.{SparkLauncher}

pub record Machine : Type 0 where
  -- `which` of its crate
  pub which : String → Option String
  -- `env::var`
  pub var : String → Option String
  -- the standard output of a program, as text
  pub output : String → Result String String
  -- `Path::parent` and `Path::exists`
  pub parent : String → Option String
  pub exists : String → Bool
  -- `local_ip` of its crate
  pub local_ip : Result String String
  -- `PLUGIN_BINARY`, if the plugin is embedded: the temporary file that it is written to
  pub embedded_plugin : Option (Result String String)
  -- `CARGO_MANIFEST_DIR`
  pub manifest_dir : String

abbrev pub spark_home : String
spark_home = "SPARK_HOME"

-- A version with the fields of `..Default::default()`.
abbrev pub default_version : String → Option String → SparkVersion
default_version home python_executable = record {
  name = "default";
  home = home;
  master = none;
  deploy_mode = none;
  proxy_user = none;
  env = none;
  default_configs = none;
  merge_configs = none;
  override_configs = none;
  python_executable = python_executable;
}

module _ (machine : Machine) where
  -- `find_spark_home.py`, or else the directory above that of `spark-submit`.
  home_of : Option String → Option String → Result String String
  home_of (some find_spark_home) submit = do
    path ← machine.output find_spark_home
    ok (trim_end path)
  home_of none (some submit_path) = do
    bin ← ok_or (machine.parent submit_path) "Failed to get parent of spark-submit command"
    ok_or (machine.parent bin) "Failed to get parent of spark-submit command"
  home_of none none = err "Unable to find a default Spark installation"

  unfoldable pub find_default_spark_home : Result String String
  unfolding home_of
  find_default_spark_home =
      home_of (machine.which "find_spark_home.py") (machine.which "spark-submit")

  default_home : Option String → Result String String
  default_home (some home) = ok home
  default_home none = find_default_spark_home

  default_versions : Option (List SparkVersion) → Result String (List SparkVersion)
  unfolding default_home
  default_versions (some versions) = ok versions
  default_versions none = do
    home ← default_home (machine.var spark_home)
    ok (default_version home (machine.which "python3") ∷ [])

  some_version : List SparkVersion → Result String (Unit {0})
  some_version [] = err "No Spark versions provided"
  some_version (v ∷ vs) = ok tt

  -- The loop that checks the homes.
  check_homes : List SparkVersion → Result String (Unit {0})
  check_homes [] = ok tt
  check_homes (v ∷ vs) =
      let rest = check_homes vs in
      if machine.exists v.home
      then rest
      else err ("Home directory not found for version " ++ (v.name ++ (": " ++ v.home)))

  plugin_path : Option (Result String String) → Option String → Result String String
  plugin_path (some written) configured = written
  plugin_path none configured = ok (
      unwrap_or configured
        (machine.manifest_dir ++ "/../plugin/target/scala-2.13/spark-plug_2.13-0.1.0.jar"))

  unfoldable pub from_config : ProxyConfig → Result String SparkLauncher
  unfolding default_versions some_version check_homes plugin_path
  from_config config = do
    versions ← default_versions config.spark_versions
    callback_addr ← get_callback_addr machine.local_ip config
    some_version versions
    check_homes versions
    plugin ← plugin_path machine.embedded_plugin config.plugin_path
    ok (record {
      versions = versions;
      callback_addr = callback_addr;
      launch_timeout = unwrap_or config.launch_timeout 300;
      session_timeout = unwrap_or config.session_timeout 3600;
      plugin_path = plugin;
    })
