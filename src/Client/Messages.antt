-- ===== src/Client/Messages.antt =====
-- The JSON of clients/rust/src/lib.rs: the derived `Serialize` of a request to create, and the
-- derived `Deserialize` of an application.
use spark_plug.Common.{String, Result, ok, ◌>>=◌, [], ◌∷◌}
use spark_plug.Map.{Map}
use spark_plug.Json.{Json, text, object, optional, as_bool, as_int, as_text, required, may_lack}
use spark_plug.Client.{Application, CreateApplication}

unfoldable pub write_create : CreateApplication → Map Json
write_create c = ("version", optional text c.version) ∷ ("config", object c.config) ∷ []

unfoldable pub read_application : Map Json → Result String Application
read_application m = do
  id ← required as_int m "id"
  token ← required as_text m "token"
  active ← required as_bool m "active"
  log_url ← may_lack as_text m "log_url"
  ok (record { id = id; token = token; active = active; log_url = log_url })
