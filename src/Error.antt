-- ===== src/Error.antt =====
-- server/src/error.rs: the errors of the proxy and their `Display` texts. An error of another
-- crate that a variant carries is represented by the text that its own `Display` gives.
use Prim.Native.String.{◌++◌}
use spark_plug.Common.{String}
use spark_plug.Application.{State, to_value}

pub data Error : Type 0 where
  authorization : String → Error
  missing_authorization_header : Error
  invalid_authorization_header : String → Error
  invalid_authorization_scheme : Error
  invalid_authorization_token : Error
  application_not_found : Error
  missing_application_address : Error
  invalid_application_state : State → Error
  database : String → Error
  upstream_connect : String → Error
  upstream_handshake : String → Error
  invalid_upstream_uri : String → Error
  upstream_request : String → Error
  internal : String → Error

-- `Display`; `{0:?}` of a state is its variant's name, which is also its value.
unfoldable pub to_string : Error → String
unfolding to_value
to_string (authorization m) = "authorization error: " ++ m
to_string missing_authorization_header = "missing authorization header"
to_string (invalid_authorization_header m) = "invalid authorization header: " ++ m
to_string invalid_authorization_scheme = "unsupported authorization scheme"
to_string invalid_authorization_token = "invalid authorization token"
to_string application_not_found = "application not found for provided token"
to_string missing_application_address = "application has no upstream address"
to_string (invalid_application_state s) = "application is not ready for proxying: " ++ to_value s
to_string (database m) = "database error: " ++ m
to_string (upstream_connect m) = "failed to connect to upstream: " ++ m
to_string (upstream_handshake m) = "failed to establish upstream HTTP/2 session: " ++ m
to_string (invalid_upstream_uri m) = "invalid upstream URI: " ++ m
to_string (upstream_request m) = "upstream request failed: " ++ m
to_string (internal m) = "internal error: " ++ m
