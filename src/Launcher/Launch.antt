-- ===== src/Launcher/Launch.antt =====
-- server/src/launcher.rs: `launch`, `build_python_venv` and `track_launch`. The processes that
-- are run, and the temporary directory, are the parameter `Host`.
pub mod Spawned
use Prim.Native.String.{◌++◌}
use spark_plug.Common.{
  ℕ, ℤ, ◌&&◌, not, leb, unwrap_or, String, Bool, true, false, Option, none, some, List, [], ◌∷◌,
  ◌++◌ as append, ◌==◌, string_eq, nat_eq, if◌then◌else◌, Result, ok, err, ◌>>=◌, ◌>>◌, ok_or, find,
  map,
}
use spark_plug.Map.{insert, Map}
use spark_plug.Config.{SparkVersion}
use spark_plug.Launcher.Names.{not_found, other, IoError, io_error, SparkLauncher}
use spark_plug.Launcher.Command.{build_submit_command}

pub record Host : Type 0 where
  -- `cfg!(target_os = "windows")`, and `"macos"`
  pub windows : Bool
  pub macos : Bool
  -- `tempfile::Builder::tempdir`: the path of the new directory
  pub tempdir : Result IoError String
  -- `Command::status`: whether the program with these arguments ended with success
  pub status : String → List String → Result IoError Bool
  -- `Command::spawn`, with the program, its arguments and its environment
  pub spawn : String → List String → Map String → Result IoError (Unit {0})

-- A command that must succeed.
abbrev pub succeeds : Bool → String → Result IoError (Unit {0})
succeeds true message = ok tt
succeeds false message = err (io_error other message)

unfoldable pub build_python_venv : Host → Option String → List String → Result IoError String
build_python_venv host python_executable packages = do
  python ←
      ok_or python_executable
        (io_error not_found "No python executable specified for creating virtual environment")
  venv_path ← host.tempdir
  created ← host.status "uv" ("venv" ∷ "--python" ∷ python ∷ venv_path ∷ [])
  succeeds created ("Failed to create virtual environment with uv using " ++ python)
  let venv_python =
      if host.windows then venv_path ++ "/Scripts/python.exe" else venv_path ++ "/bin/python"
  installed ←
      host.status "uv"
        (append ("pip" ∷ "install" ∷ "--python" ∷ venv_python ∷ "venv-pack" ∷ []) packages)
  succeeds installed "Failed to install packages in virtual environment"
  let venv_pack =
      if host.windows then venv_path ++ "/Scripts/venv-pack" else venv_path ++ "/bin/venv-pack"
  packed ←
      host.status venv_pack
        ("-p" ∷ venv_path ∷ "-o" ∷ (venv_path ++ ".tgz") ∷ "--exclude" ∷ "*/venv-pack/*" ∷ [])
  succeeds packed "Failed to install packages in virtual environment"
  ok (venv_path ++ ".tgz")

unfoldable pub get_versions : SparkLauncher → List String
get_versions l = map (λ v. v.name) l.versions

-- `self.versions[0]`. It panics where there is no version; with none the server does not start.
unfoldable pub first_version : List SparkVersion → Result IoError SparkVersion
first_version [] = err (io_error other "index out of bounds")
first_version (v ∷ vs) = ok v

-- The version that a request names, or the first one.
unfoldable pub select_version : SparkLauncher → Option String → Result IoError SparkVersion
unfolding first_version
select_version l (some name) =
    ok_or (find (λ v. v.name == name) l.versions)
      (io_error not_found ("Version named " ++ (name ++ " not found")))
select_version l none = first_version l.versions

-- The environment of the launch process.
unfoldable pub launch_env : Host → SparkVersion → Map String
launch_env host version =
    let env = insert (unwrap_or version.env []) "SPARK_HOME" version.home in
    if host.macos then insert env "SPARK_LOCAL_IP" "127.0.0.1" else env

-- The packed environment, if packages are asked for.
unfoldable pub build_venv :
    Host → SparkVersion → Option (List String) → Result IoError (Option String)
unfolding build_python_venv
build_venv host version (some (p ∷ ps)) = do
  tarball ← build_python_venv host version.python_executable (p ∷ ps)
  ok (some tarball)
build_venv host version (some []) = ok none
build_venv host version none = ok none

-- `launch`: the outcome of the spawned process is what `track_launch` follows.
unfoldable pub launch :
    Host
    → SparkLauncher
    → Option String
    → ℤ
    → Option String
    → String
    → String
    → Map String
    → Option (List String)
    → Result IoError (Unit {0})
unfolding select_version launch_env build_venv build_submit_command
launch host l version_name session_id app_name username token user_config python_packages = do
  version ← select_version l version_name
  venv_tarball ← build_venv host version python_packages
  command ←
      build_submit_command l version session_id app_name username token user_config venv_tarball
  host.spawn command.0 command.1 (launch_env host version)

-- `track_launch`: when the task that it spawns ends, in seconds after the launch, if the launch
-- process ends after that many seconds, with success or not, or never ends.
unfoldable pub track_launch : SparkLauncher → Option (ℕ × Bool) → ℕ
track_launch l none = l.launch_timeout
track_launch l (some (ended, success)) =
    if not success && leb ended l.launch_timeout then ended else l.launch_timeout
