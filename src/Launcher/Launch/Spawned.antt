-- ===== src/Launcher/Launch/Spawned.antt =====
-- What `launch` of server/src/launcher.rs has done when it gives a task to wait for.
use spark_plug.Common.{
  bind_ok, ok_injective, ℤ, String, ◌≡◌, Option, none, some, List, [], ◌∷◌, arith, ok, In, inl, inr,
  Bool-cases, ap, sym, ◌∙◌, find, ok_or, string_eq, ◌==◌, eq_iff, unwrap_or,
}
use spark_plug.Map.{Map, get, insert, get-insert}
use spark_plug.Config.{SparkVersion}
use spark_plug.Launcher.Names.{SparkLauncher, IoError}
use spark_plug.Launcher.Files.{file_config_keys, validate_file_configs}
use spark_plug.Launcher.Files.Valid.{AllKeysRemote, validate_file_configs_iff}
use spark_plug.Launcher.Command.{build_submit_command, submit_path}
use spark_plug.Launcher.Launch.{Host, first_version, launch, select_version, build_venv, launch_env}

find_named :
    (vs : List SparkVersion) (name : String) (e : IoError) (v : SparkVersion)
    → ok_or (find (λ x. x.name == name) vs) e ≡ ok v
    → In v vs × (v.name ≡ name)
find_named [] name e v h = cc
find_named (x ∷ vs) name e v h = elim (Bool-cases (x.name == name)) [
  | inl same ↦
      let p : x ≡ v = ground arith in
      (inl (sym p), ap (λ y. y.name) (sym p) ∙ (eq_iff x.name name).0 same)
  | inr apart ↦ let (listed, named) = find_named vs name e v (rw apart at h) in (inr listed, named)
]

first_listed : (vs : List SparkVersion) (v : SparkVersion) → first_version vs ≡ ok v → In v vs
unfolding first_version
first_listed [] v e = cc
first_listed (x ∷ vs) v e = inl (sym (ok_injective e))

select_version_named :
    (l : SparkLauncher) (version_name : Option String) (v : SparkVersion)
    → select_version l version_name ≡ ok v
    → In v l.versions × ((name : String) → version_name ≡ some name → v.name ≡ name)
unfolding select_version
select_version_named l none v e = (first_listed l.versions v e, λ name h. cc)
select_version_named l (some n) v e =
    let (listed, same) = find_named l.versions n _ v e in (listed, λ name h. cc)

get-launch_env :
    (host : Host) (version : SparkVersion)
    → get (launch_env host version) "SPARK_HOME" ≡ some version.home
unfolding launch_env
get-launch_env host version = ground (
  arith,
  get-insert (unwrap_or version.env []) "SPARK_HOME" "SPARK_HOME" version.home,
  get-insert (insert (unwrap_or version.env []) "SPARK_HOME" version.home) "SPARK_LOCAL_IP"
      "SPARK_HOME" "127.0.0.1",
)

valid_of_built :
    (l : SparkLauncher) (v : SparkVersion) (session_id : ℤ) (app_name : Option String)
    (username token : String) (user_config : Map String) (venv : Option String) (path : String)
    (args : List String)
    → build_submit_command l v session_id app_name username token user_config venv ≡ ok (path, args)
    → (validate_file_configs user_config ≡ ok tt) × (path ≡ submit_path v)
unfolding build_submit_command
valid_of_built l v session_id app_name username token user_config venv path args e = ground arith

module _ (host : Host) (l : SparkLauncher) (version_name : Option String) (session_id : ℤ)
    (app_name : Option String) (username token : String) (user_config : Map String)
    (python_packages : Option (List String)) where
  -- A process that is started.
  pub record IsSpawned : Type 0 where
    pub version : SparkVersion
    pub listed : In version l.versions
    pub named : (name : String) → version_name ≡ some name → version.name ≡ name
    pub remote : AllKeysRemote user_config file_config_keys
    pub venv : Option String
    pub packed : build_venv host version python_packages ≡ ok venv
    pub args : List String
    pub command :
        build_submit_command l version session_id app_name username token user_config venv
        ≡ ok (submit_path version, args)
    pub env : Map String
    pub env_home : get env "SPARK_HOME" ≡ some version.home
    pub spawned : host.spawn (submit_path version) args env ≡ ok tt

  spawned_with :
      (v : SparkVersion) (venv : Option String) (path : String) (args : List String)
      → select_version l version_name ≡ ok v
      → build_venv host v python_packages ≡ ok venv
      → build_submit_command l v session_id app_name username token user_config venv
        ≡ ok (path, args)
      → host.spawn path args (launch_env host v) ≡ ok tt
      → IsSpawned
  spawned_with v venv path args e1 e2 e3 e4 =
      let (listed, named) = select_version_named l version_name v e1 in
      let (valid, same) =
        valid_of_built l v session_id app_name username token user_config venv path args e3 in
      record {
        version = v;
        listed = listed;
        named = named;
        remote = (validate_file_configs_iff user_config).0 valid;
        venv = venv;
        packed = e2;
        args = args;
        command = rw (← same) e3;
        env = launch_env host v;
        env_home = get-launch_env host v;
        spawned = rw (← same) e4;
      }

  -- A launch that succeeds has started the spark-submit of a version of the configuration, which
  -- is the one that is named if one is named, with that version's home as `SPARK_HOME` whatever
  -- the version's own environment says, and only after the user's file configs were found remote
  -- and the Python environment was packed.
  pub launch-IsSpawned :
      launch host l version_name session_id app_name username token user_config python_packages
        ≡ ok tt
      → IsSpawned
  unfolding launch
  launch-IsSpawned e =
      let (v, e1, r1) = bind_ok (select_version l version_name) _ e in
      let (venv, e2, r2) = bind_ok (build_venv host v python_packages) _ r1 in
      let ((path, args), e3, r3) =
        bind_ok (build_submit_command l v session_id app_name username token user_config venv) _
          r2 in
      spawned_with v venv path args e1 e2 e3 r3
