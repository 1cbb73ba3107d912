-- ===== src/Tests/Launcher.antt =====
-- Runs of the launcher's configuration, its file check and its command line.
use spark_plug.Common.{pos, String, ◌≡◌, refl, none, some, List, [], ◌∷◌, ok, string_eq, map}
use spark_plug.Map.{Map, IsMap, get}
use spark_plug.Text.{split, trim, contains, starts_with}
use spark_plug.Launcher.Conf.{submit_conf}
use spark_plug.Launcher.Conf.Layers.{IsVersion}
use spark_plug.Launcher.Conf.Lookup.{get-submit_conf}
use spark_plug.Launcher.Conf.Internal.{IsInternal}
use spark_plug.Launcher.Files.{validate_file_configs}
use spark_plug.Launcher.Command.{build_submit_command, submit_path, submit_args}
use spark_plug.Launcher.Command.Args.{passed, setting, command_configs}
use spark_plug.Tests.Data.{version, spark_launcher}

-- The user's configs: one replaces a default, one is a list of remote files.
abbrev user_config : Map String
user_config = ("spark.a", "7") ∷ ("spark.files", "hdfs://z, s3://w") ∷ []

pub version-IsVersion : IsVersion version
unfolding get
version-IsVersion = record {
  default_configs = (refl, (refl, tt));
  merge_configs = (refl, tt);
  override_configs = (refl, tt);
}

user_config-IsMap : IsMap user_config
unfolding get
user_config-IsMap = (refl, (refl, tt))

-- The merged files stand behind the user's.
get-submit_conf_example :
    get
      (submit_conf spark_launcher version (pos 3) none "t1" user_config (some "/tmp/v.tgz"))
      "spark.files"
    ≡ some "hdfs://z, s3://w,hdfs://y"
unfolding get
get-submit_conf_example =
    get-submit_conf spark_launcher version (pos 3) none "t1" user_config (some "/tmp/v.tgz")
      "spark.files" version-IsVersion user_config-IsMap

abbrev args : List String
args =
    submit_args spark_launcher version "ada"
      (submit_conf spark_launcher version (pos 3) none "t1" user_config none)

built :
    build_submit_command spark_launcher version (pos 3) none "ada" "t1" user_config none
    ≡ ok (submit_path version, args)
unfolding build_submit_command validate_file_configs get split trim contains starts_with
built = refl

command_configs_example :
    (passed args
      ≡ map setting (submit_conf spark_launcher version (pos 3) none "t1" user_config none))
    × IsMap (submit_conf spark_launcher version (pos 3) none "t1" user_config none)
    × IsInternal spark_launcher "t1"
        (submit_conf spark_launcher version (pos 3) none "t1" user_config none)
command_configs_example =
    command_configs spark_launcher version (pos 3) none "ada" "t1" user_config none
      version-IsVersion built
