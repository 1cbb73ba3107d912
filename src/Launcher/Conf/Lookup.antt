-- ===== src/Launcher/Conf/Lookup.antt =====
-- The configuration of a session's command, key by key: `build_conf` and `build_submit_command` of
-- server/src/launcher.rs.
use Prim.Native.String.{◌++◌}
use spark_plug.Common.{
  ℤ, String, ◌≡◌, refl, Option, none, some, [], ◌∷◌, arith, ◌==◌, string_eq, if◌then◌else◌,
  unwrap_or, or_else, inl, inr, ◌∙◌, ap, sym, Bool-cases, eq_iff,
}
use spark_plug.Map.{Map, IsMap, get, extend, get-extend, contains_key}
use spark_plug.Text.Show.{show, show_int}
use spark_plug.Config.{SparkVersion}
use spark_plug.Launcher.Names.{SparkLauncher}
use spark_plug.Launcher.Conf.{
  build_conf, set_app_name, set_internal, set_venv, archives_with, submit_conf,
}
use spark_plug.Launcher.Conf.Layers.{IsVersion, merged, get-build_conf}

-- A value, and the one to be merged with it: both, behind each other with a comma between them.
abbrev pub behind : Option String → Option String → Option String
behind existing none = existing
behind none (some value) = some value
behind (some existing) (some value) = some (existing ++ ("," ++ value))

merged-behind : (value existing : Option String) → merged value existing ≡ behind existing value
merged-behind none existing = refl
merged-behind (some v) none = refl
merged-behind (some v) (some e) = refl

-- What the version and the user say of a key: the override of the version, or else the user's value
-- or the version's default, with the version's merged value behind it.
abbrev pub layered : SparkVersion → Map String → String → Option String
layered v user_config key = or_else (get (unwrap_or v.override_configs []) key) (
    behind (or_else (get user_config key) (get (unwrap_or v.default_configs []) key))
      (get (unwrap_or v.merge_configs []) key))

-- An archive at the end of a list of archives, which may be missing or empty.
abbrev pub with_archive : Option String → String → String
with_archive none archive = archive
with_archive (some archives) archive =
    if archives == "" then archive else archives ++ ("," ++ archive)

-- The environment of Python that was packed for the session, if one was.
abbrev pub python_configs : Option String → Option String → Map String
python_configs archives none = []
python_configs archives (some venv_tarball) =
    ("spark.archives", with_archive archives (venv_tarball ++ "#environment"))
    ∷ ("spark.sql.execution.pyspark.python", "../environment/bin/python")
    ∷ []

same_archives :
    (archives : Option String) (archive : String)
    → archives_with archives archive ≡ with_archive archives archive
same_archives none archive = refl
same_archives (some archives) archive = ground arith

kept_name :
    (configs : Map String) (n k : String)
    → get configs "spark.app.name" ≡ some n
    → get configs k ≡ or_else (get (("spark.app.name", n) ∷ []) k) (get configs k)
kept_name configs n k e = elim (Bool-cases ("spark.app.name" == k)) [
  | inl t ↦ unfold get in rw t (ap (get configs) (sym ((eq_iff "spark.app.name" k).0 t)) ∙ e)
  | inr t ↦ unfold get in rw t refl
]

get-set_name :
    (i : ℤ) (name : Option String) (configs : Map String) (below : Option String) (k : String)
    → get configs "spark.app.name" ≡ below
    → get (set_app_name i name configs) k
      ≡ or_else
          (get
            ((
              "spark.app.name",
              unwrap_or (or_else name below) ("spark-plug-session-" ++ show_int i),
            )
              ∷ [])
            k)
          (get configs k)
unfolding set_app_name contains_key
get-set_name i (some n) configs below k e =
    unfold extend in get-extend configs (("spark.app.name", n) ∷ []) k (unfold get in refl, tt)
get-set_name i none configs none k e = rw e (
    unfold extend in
    get-extend configs (("spark.app.name", "spark-plug-session-" ++ show_int i) ∷ []) k
      (unfold get in refl, tt))
get-set_name i none configs (some n) k e = rw e (kept_name configs n k e)

get-set_venv :
    (venv : Option String) (configs : Map String) (k : String)
    → get (set_venv venv configs) k
      ≡ or_else (get (python_configs (get configs "spark.archives") venv) k) (get configs k)
unfolding set_venv
get-set_venv none configs k = unfold get in refl
get-set_venv (some venv_tarball) configs k =
    rw (← same_archives (get configs "spark.archives") (venv_tarball ++ "#environment"))
      (unfold extend in get-extend configs _ k (unfold get in (refl, (refl, tt))))

module _ (l : SparkLauncher) (v : SparkVersion) (session_id : ℤ) (app_name : Option String)
    (token : String) (user_config : Map String) (venv : Option String) where
  -- The keys that the server sets itself.
  abbrev pub server_configs : Map String
  server_configs =
      ("spark.connect.authenticate.token", token)
      ∷ ("spark.plug.callback", l.callback_addr)
      ∷ ("spark.plug.idle.timeout", show l.session_timeout)
      ∷ ("spark.extraListeners", "org.apache.spark.sql.sparkplug.SparkPlugListener")
      ∷ (
        "spark.connect.grpc.interceptor.classes",
        "org.apache.spark.sql.sparkplug.SparkPlugInterceptor",
      )
      ∷ ("spark.connect.grpc.binding.port", "0")
      ∷ []

  -- The session's name: the request's, or else the one below, or else one made of its id.
  abbrev pub name_configs : Map String
  name_configs =
      (
        "spark.app.name",
        unwrap_or (or_else app_name (layered v user_config "spark.app.name"))
            ("spark-plug-session-" ++ show_int session_id),
      )
      ∷ []

  get-layered :
      (k : String)
      → IsVersion v
      → IsMap user_config
      → get (build_conf v user_config) k ≡ layered v user_config k
  get-layered k h u =
      get-build_conf v user_config k h u
      ∙ ap (or_else (get (unwrap_or v.override_configs []) k)) (
          merged-behind (get (unwrap_or v.merge_configs []) k)
            (or_else (get user_config k) (get (unwrap_or v.default_configs []) k)))

  server_configs-IsMap : IsMap server_configs
  unfolding get
  server_configs-IsMap = (refl, (refl, (refl, (refl, (refl, (refl, tt))))))

  get-set_internal :
      (configs : Map String) (k : String)
      → get (set_internal l token configs) k ≡ or_else (get server_configs k) (get configs k)
  get-set_internal configs k =
      unfold set_internal extend in get-extend configs server_configs k server_configs-IsMap

  abbrev named : Map String
  named = set_app_name session_id app_name (build_conf v user_config)

  get-named :
      (k : String)
      → IsVersion v
      → IsMap user_config
      → get (set_internal l token named) k
        ≡ or_else (get server_configs k) (or_else (get name_configs k) (layered v user_config k))
  get-named k h u =
      get-set_internal named k
      ∙ ap (or_else (get server_configs k)) (
          get-set_name session_id app_name (build_conf v user_config)
            (layered v user_config "spark.app.name") k (get-layered "spark.app.name" h u)
          ∙ ap (or_else (get name_configs k)) (get-layered k h u))

  archives_named :
      IsVersion v
      → IsMap user_config
      → get (set_internal l token named) "spark.archives" ≡ layered v user_config "spark.archives"
  archives_named h u = get-named "spark.archives" h u ∙ unfold get in refl

  -- The value of every key of a session's configuration: what the packed environment sets, or else
  -- what the server sets itself, or else the session's name, or else what the layers of the version
  -- and the user say. The maps have no key twice.
  pub get-submit_conf :
      (k : String)
      → IsVersion v
      → IsMap user_config
      → get (submit_conf l v session_id app_name token user_config venv) k
        ≡ or_else (get (python_configs (layered v user_config "spark.archives") venv) k) (
            or_else (get server_configs k) (or_else (get name_configs k) (layered v user_config k)))
  unfolding submit_conf
  get-submit_conf k h u =
      get-set_venv venv (set_internal l token named) k
      ∙ ap (λ o. or_else (get (python_configs o venv) k) (get (set_internal l token named) k))
          (archives_named h u)
      ∙ ap (or_else (get (python_configs (layered v user_config "spark.archives") venv) k))
          (get-named k h u)
