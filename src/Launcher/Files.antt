-- ===== src/Launcher/Files.antt =====
-- server/src/launcher.rs: `validate_file_configs`.
pub mod Valid
use Prim.Native.String.{◌++◌}
use spark_plug.Common.{
  String, not, Option, none, some, List, [], ◌∷◌, ◌==◌, string_eq, nat_eq, if◌then◌else◌, Result,
  ok, err, ◌>>◌,
}
use spark_plug.Map.{Map, get}
use spark_plug.Text.{split, trim, contains, starts_with}
use spark_plug.Launcher.Names.{archives_config, invalid_input, permission_denied, IoError, io_error}

-- One piece of a file list, in the loops of `validate_file_configs`.
check_path : String → String → Result IoError (Unit {0})
check_path key file_path =
    let trimmed = trim file_path in
    if trimmed == ""
    then ok tt
    else if not (contains trimmed "://")
    then err (
        io_error invalid_input
          ("Config " ++ (key ++ (" contains file path without protocol: " ++ trimmed))))
    else if starts_with trimmed "file://"
    then err (
        io_error permission_denied
          ("Config " ++ (key ++ (" cannot use file:// protocol: " ++ trimmed))))
    else ok tt

check_paths : String → List String → Result IoError (Unit {0})
unfolding check_path
check_paths key [] = ok tt
check_paths key (p ∷ ps) = do check_path key p; check_paths key ps

check_value : String → Option String → Result IoError (Unit {0})
unfolding check_paths
check_value key none = ok tt
check_value key (some value) = check_paths key (split b',' value)

check_keys : Map String → List String → Result IoError (Unit {0})
unfolding check_value
check_keys configs [] = ok tt
check_keys configs (key ∷ keys) = do check_value key (get configs key); check_keys configs keys

abbrev pub file_config_keys : List String
file_config_keys = "spark.files" ∷ archives_config ∷ "spark.submit.pyFiles" ∷ []

unfoldable pub validate_file_configs : Map String → Result IoError (Unit {0})
unfolding check_keys
validate_file_configs configs = check_keys configs file_config_keys
