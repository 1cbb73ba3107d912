-- ===== src/Routes/Messages.antt =====
-- The JSON of the API of server/src/routes.rs: the derived `Deserialize` of a request to create, and
-- the derived `Serialize` of an application's description.
use spark_plug.Common.{String, Result, ok, ◌>>=◌, [], ◌∷◌}
use spark_plug.Map.{Map}
use spark_plug.Json.{Json, boolean, number, text, optional, as_text, as_texts, as_object, may_lack}
use spark_plug.Routes.Api.{CreateApplicationRequest, ApplicationInfo}

unfoldable pub read_create : Map Json → Result String CreateApplicationRequest
read_create m = do
  name ← may_lack as_text m "name"
  version ← may_lack as_text m "version"
  config ← may_lack as_object m "config"
  python_packages ← may_lack as_texts m "python_packages"
  ok (record { name = name; version = version; config = config; python_packages = python_packages })

unfoldable pub write_info : ApplicationInfo → Map Json
write_info i =
    ("id", number i.id)
    ∷ ("name", optional text i.name)
    ∷ ("token", text i.token)
    ∷ ("state", text i.state)
    ∷ ("active", boolean i.active)
    ∷ ("ui_url", optional text i.ui_url)
    ∷ ("log_url", optional text i.log_url)
    ∷ []
