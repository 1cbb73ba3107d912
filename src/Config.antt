-- ===== src/Config.antt =====
-- server/src/config.rs: the server's configuration, how it is read, and what is computed from it.
pub mod Urls
use Prim.Native.String.{◌++◌}
use spark_plug.Common.{
  ℕ, String, Bool, Option, none, some, List, [], ◌==◌, string_eq, if◌then◌else◌, unwrap_or, is_some,
  Result, ok, err, ◌>>=◌,
}
use spark_plug.Map.{Map}
use spark_plug.Text.Show.{show}
use spark_plug.Auth.{AuthConfig}

pub record SparkVersion : Type 0 where
  pub name : String
  pub home : String
  pub master : Option String
  pub deploy_mode : Option String
  pub proxy_user : Option Bool
  pub env : Option (Map String)
  pub default_configs : Option (Map String)
  pub merge_configs : Option (Map String)
  pub override_configs : Option (Map String)
  pub python_executable : Option String

pub record KerberosConfig : Type 0 where
  pub keytab : String
  pub principal : String
  pub renewal_interval : Option ℕ

pub record TlsConfig : Type 0 where
  pub key : String
  pub cert : String

pub record ProxyConfig : Type 0 where
  pub bind_host : Option String
  pub bind_port : Option ℕ
  pub callback_address : Option String
  pub ui_url_template : Option String
  pub log_url_template : Option String
  pub plugin_path : Option String
  pub launch_timeout : Option ℕ
  pub session_timeout : Option ℕ
  pub store : Option String
  pub kerberos_config : Option KerberosConfig
  pub tls : Option TlsConfig
  pub spark_versions : Option (List SparkVersion)
  pub auth_methods : Option (List AuthConfig)

-- `figment`: the values that a provider has by their keys, of a YAML file and of the environment's
-- variables with a prefix; `merge` of two providers, and `extract`, which reads a configuration.
pub record Figment : Type 1 where
  pub Value : Type 0
  pub yaml_file : String → Result String (Map Value)
  pub env_prefixed : String → Result String (Map Value)
  pub merge : Map Value → Map Value → Map Value
  pub extract : Map Value → Result String ProxyConfig

module _ (F : Figment) where
  abbrev pub file_values : Option String → Result String (Map F.Value)
  file_values none = ok []
  file_values (some path) = do values ← F.yaml_file path; ok (F.merge [] values)

  -- `ProxyConfig::create`; its `unwrap` panics with the error.
  unfoldable pub create : Option String → Result String ProxyConfig
  create path = do
    file ← file_values path
    env ← F.env_prefixed "SPARK_PLUG_"
    F.extract (F.merge file env)

abbrev pub default_port : ℕ
default_port = 8100

unfoldable pub get_bind_port : ProxyConfig → ℕ
get_bind_port c = unwrap_or c.bind_port default_port

-- `local_ip` of its crate is the first argument; its failure panics.
unfoldable pub get_callback_addr : Result String String → ProxyConfig → Result String String
unfolding get_bind_port
get_callback_addr local_ip c = elim c.callback_address [
  | some address ↦ ok address
  | none ↦
      let scheme = if is_some c.tls then "https" else "http" in
      elim local_ip [
        | ok ip ↦ ok (scheme ++ ("://" ++ (ip ++ (":" ++ show (get_bind_port c)))))
        | err e ↦ err e
      ]
]

-- The common body of `render_ui_url` and `render_log_url`; `render!` of `minijinja` is the first
-- argument: the template and the value of `application_id`.
render_url : (String → String → String) → Option String → Option String → Option String
render_url render none application_id = none
render_url render (some tpl) none = none
render_url render (some tpl) (some app_id) = if app_id == "" then none else some (render tpl app_id)

unfoldable pub render_ui_url :
    (String → String → String) → ProxyConfig → Option String → Option String
unfolding render_url
render_ui_url render c application_id = render_url render c.ui_url_template application_id

unfoldable pub render_log_url :
    (String → String → String) → ProxyConfig → Option String → Option String
unfolding render_url
render_log_url render c application_id = render_url render c.log_url_template application_id
