-- ===== src/Launcher/Command/Args.antt =====
-- The command line that `build_submit_command` of server/src/launcher.rs builds.
use Prim.Native.String.{◌++◌}
use mathlib.Core.List.{append_assoc}
use spark_plug.Common.{
  ℤ, String, ◌≡◌, ◌↔◌, Option, some, List, [], ◌∷◌, ◌++◌ as append, arith, ◌==◌, string_eq, eq_iff,
  Result, ok, inl, inr, ap, Bool-cases, ◌∙◌, refl, map, none, unwrap_or, false, if◌then◌else◌,
}
use spark_plug.Map.{Map, IsMap, get}
use spark_plug.Config.{SparkVersion}
use spark_plug.Launcher.Names.{SparkLauncher, IoError}
use spark_plug.Launcher.Conf.{submit_conf}
use spark_plug.Launcher.Conf.Layers.{IsVersion}
use spark_plug.Launcher.Conf.Internal.{IsInternal, submit_conf-IsInternal, submit_conf-IsMap}
use spark_plug.Launcher.Files.{validate_file_configs, file_config_keys}
use spark_plug.Launcher.Files.Valid.{AllKeysRemote, validate_file_configs_iff}
use spark_plug.Launcher.Command.{
  conf_args, submit_args, submit_path, build_submit_command, option_args, proxy_user_args,
}

-- The arguments pass a config: `--conf key=value`.
abbrev pub HasConf : List String → String → String → Type 0
HasConf args key value =
    (before : List String) × (after : List String) × (args
      ≡ append before ("--conf" ∷ (key ++ ("=" ++ value)) ∷ after))

conf_args-HasConf : (m : Map String) (k v : String) → get m k ≡ some v → HasConf (conf_args m) k v
unfolding conf_args get
conf_args-HasConf [] k v e = cc
conf_args-HasConf ((j, w) ∷ m) k v e = elim (Bool-cases (j == k)) [
  | inl same ↦
      let p : j ≡ k = (eq_iff j k).0 same in
      let q : w ≡ v = ground arith in ([], conf_args m, rw (p, q))
  | inr apart ↦
      let (before, after, h) = conf_args-HasConf m k v (rw (apart, get) at e) in
      ("--conf" ∷ (j ++ ("=" ++ w)) ∷ before, after, ap (λ r. "--conf" ∷ (j ++ ("=" ++ w)) ∷ r) h)
]

HasConf-append :
    (xs args ys : List String) (k v : String)
    → HasConf args k v
    → HasConf (append xs (append args ys)) k v
HasConf-append xs args ys k v (before, after, h) =
    (append xs before, append after ys, rw h (simp append_assoc))

submit_args-HasConf :
    (l : SparkLauncher) (v : SparkVersion) (username : String) (m : Map String) (k value : String)
    → get m k ≡ some value
    → HasConf (submit_args l v username m) k value
unfolding submit_args
submit_args-HasConf l v username m k value e =
    rw
      (← append_assoc (option_args "--master" v.master) (option_args "--deploy-mode" v.deploy_mode)
        _)
      (HasConf-append _ (conf_args m) _ k value (conf_args-HasConf m k value e))

-- What spark-submit reads as configs: its options come in pairs of a flag and a value, and the last
-- argument, alone, is the application.
abbrev pub passed : List String → List String
passed [] = []
passed (application ∷ []) = []
passed (flag ∷ value ∷ args) =
    let rest = passed args in if flag == "--conf" then value ∷ rest else rest

abbrev pub setting : String × String → String
setting (key, value) = key ++ ("=" ++ value)

passed_option :
    (flag : String) (o : Option String) (args : List String)
    → (flag == "--conf") ≡ false
    → passed (append (option_args flag o) args) ≡ passed args
passed_option flag none args h = refl
passed_option flag (some value) args h = rw h refl

passed_configs :
    (m : Map String) (args : List String)
    → passed (append (conf_args m) args) ≡ append (map setting m) (passed args)
unfolding conf_args
passed_configs [] args = refl
passed_configs ((key, value) ∷ m) args =
    ap (λ r. (key ++ ("=" ++ value)) ∷ r) (passed_configs m args)

append_nil : (xs : List String) → append xs [] ≡ xs
append_nil [] = refl
append_nil (x ∷ xs) = ap (λ r. x ∷ r) (append_nil xs)

passed_user :
    (v : SparkVersion) (username path : String)
    → passed (append (proxy_user_args v username) (path ∷ [])) ≡ []
passed_user v username path = elim (Bool-cases (unwrap_or v.proxy_user false)) [
  | inl e ↦ rw e refl
  | inr e ↦ rw e refl
]

passed_submit :
    (l : SparkLauncher) (v : SparkVersion) (username : String) (m : Map String)
    → passed (submit_args l v username m) ≡ map setting m
unfolding submit_args
passed_submit l v username m =
    passed_option "--master" v.master _ refl
    ∙ passed_option "--deploy-mode" v.deploy_mode _ refl
    ∙ passed_configs m _
    ∙ ap (append (map setting m)) (passed_user v username l.plugin_path)
    ∙ append_nil (map setting m)

module _ (l : SparkLauncher) (v : SparkVersion) (session_id : ℤ) (app_name : Option String)
    (username token : String) (user_config : Map String) (venv : Option String) where
  abbrev command : Result IoError (String × List String)
  command = build_submit_command l v session_id app_name username token user_config venv

  abbrev configs : Map String
  configs = submit_conf l v session_id app_name token user_config venv

  command_ok :
      {path : String} {args : List String}
      → command ≡ ok (path, args)
      → (validate_file_configs user_config ≡ ok tt) × (args ≡ submit_args l v username configs)
  unfolding build_submit_command
  command_ok e = ground arith

  -- Each of the configs is among the arguments.
  pub command-HasConf :
      {path : String} {args : List String} (k value : String)
      → build_submit_command l v session_id app_name username token user_config venv
        ≡ ok (path, args)
      → get configs k ≡ some value
      → HasConf args k value
  command-HasConf k value e g =
      rw ((command_ok e).1) (submit_args-HasConf l v username configs k value g)

  -- The values of the options `--conf` of a command that is built are, one for one and in their
  -- order, the entries of the session's configuration, written `key=value`: nothing else is passed
  -- by `--conf`. No two of the entries have the same key, and the server's six internal configs are
  -- among them with the server's values. The version's configurations are maps.
  pub command_configs :
      {path : String} {args : List String}
      → IsVersion v
      → build_submit_command l v session_id app_name username token user_config venv
        ≡ ok (path, args)
      → (passed args ≡ map setting (submit_conf l v session_id app_name token user_config venv))
        × IsMap (submit_conf l v session_id app_name token user_config venv)
        × IsInternal l token (submit_conf l v session_id app_name token user_config venv)
  command_configs h e = (
    ap passed (command_ok e).1 ∙ passed_submit l v username configs,
    submit_conf-IsMap l v session_id app_name token user_config venv h,
    submit_conf-IsInternal l v session_id app_name token user_config venv,
  )

  build_of_valid :
      validate_file_configs user_config ≡ ok tt
      → command ≡ ok (submit_path v, submit_args l v username configs)
  unfolding build_submit_command
  build_of_valid h = rw h

  -- A command is built exactly when the user's file configs name remote files only.
  pub command_built_iff :
      ((path : String) × (args : List String) × (build_submit_command l v session_id app_name
            username token user_config venv
          ≡ ok (path, args)))
      ↔ AllKeysRemote user_config file_config_keys
  command_built_iff = (
    λ (path, args, e). (validate_file_configs_iff user_config).0 (command_ok e).0,
    λ h. (
      submit_path v,
      submit_args l v username configs,
      build_of_valid ((validate_file_configs_iff user_config).1 h),
    ),
  )
