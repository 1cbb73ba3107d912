-- ===== src/Proxy/Bearer.antt =====
-- server/src/proxy.rs: `extract_bearer_token`.
pub mod Agreement
use spark_plug.Common.{
  String, Option, none, some, Result, ok, err, ◌==◌, string_eq, not, if◌then◌else◌,
}
use spark_plug.Text.{split_once}
use spark_plug.Http.{HeaderMap, HeaderValue, authorization}
use spark_plug.Error.{
  Error, missing_authorization_header, invalid_authorization_header, invalid_authorization_scheme,
}

-- The match on `authorization.split_once(' ')`.
token_of : Option (String × String) → Result Error String
token_of (some (scheme, token)) =
    if scheme == "Bearer"
    then (if not (token == "")
        then ok token
        else err (invalid_authorization_header "missing bearer token"))
    else err invalid_authorization_scheme
token_of none = err (invalid_authorization_header "expected `Bearer <token>`")

token_of_value : Option HeaderValue → Result Error String
unfolding token_of
token_of_value none = err missing_authorization_header
token_of_value (some (err e)) = err (invalid_authorization_header e)
token_of_value (some (ok h)) = token_of (split_once 32 h)

unfoldable pub extract_bearer_token : HeaderMap → Result Error String
unfolding token_of_value
extract_bearer_token headers = token_of_value (headers authorization)
