-- ===== src/Proxy/Session.antt =====
-- server/src/proxy.rs: `upstream_connection`, the dispatcher task of one session, and
-- `ProxyService::call`.
pub mod Guard
use Prim.Native.String.{◌++◌}
use spark_plug.Common.{
  ℕ, String, Bool, true, false, Option, none, some, List, [], ◌∷◌, Result, ok, err, ◌==◌, string_eq,
  if◌then◌else◌, unwrap_or,
}
use spark_plug.Text.{starts_with}
use spark_plug.Http.{HeaderMap}
use spark_plug.Error.{Error, invalid_authorization_token, invalid_upstream_uri, upstream_request}
use spark_plug.Proxy.Bearer.{extract_bearer_token}

-- What the dispatcher reads of a request.
pub record Request : Type 0 where
  pub headers : HeaderMap
  pub path_and_query : Option String

-- An upstream connection: its number and its address.
abbrev pub Connection : Type 0
Connection = ℕ × String

-- What the rest of the world does for one request, should the dispatcher ask: the outcome of
-- `resolve_upstream_connection`, of parsing the URI, and of `sender.ready`.
pub record Answers : Type 0 where
  pub resolved : Result Error Connection
  pub parse : String → Result String (Unit {0})
  pub ready : Result String (Unit {0})

-- What becomes of a request: an error response, or it is sent to a connection under a URI.
pub data Outcome : Type 0 where
  answered : Error → Outcome
  sent : Connection → String → Outcome

-- The check of the request's token against the session's.
abbrev pub check_token : String → Result Error String → Option Error
check_token token (ok t) = if t == token then none else some invalid_authorization_token
check_token token (err error) = some error

-- The connection to use: the one that is there, or a new one.
abbrev pub connection_for : Option Connection → Result Error Connection → Result Error Connection
connection_for (some connection) resolved = ok connection
connection_for none resolved = resolved

abbrev pub upstream_uri : Connection → Request → String
upstream_uri connection req = "http://" ++ (connection.1 ++ unwrap_or req.path_and_query "/")

-- The end of a round, with a connection. The state is the variable `upstream`.
unfoldable pub send_on : Connection → Request → Answers → Outcome × Option Connection
send_on connection req world = elim (world.parse (upstream_uri connection req)) [
  | err e ↦ (answered (invalid_upstream_uri e), some connection)
  | ok u ↦ elim world.ready [
    | err e ↦ (answered (upstream_request e), none)
    | ok u ↦ (sent connection (upstream_uri connection req), some connection)
  ]
]

unfoldable pub with_token :
    Option Error → Option Connection → Request → Answers → Outcome × Option Connection
unfolding send_on
with_token (some error) upstream req world = (answered error, upstream)
with_token none upstream req world = elim (connection_for upstream world.resolved) [
  | err error ↦ (answered error, none)
  | ok connection ↦ send_on connection req world
]

-- One round of the loop of `upstream_connection`.
unfoldable pub dispatch :
    String → Option Connection → Request → Answers → Outcome × Option Connection
unfolding with_token extract_bearer_token
dispatch token upstream req world =
    with_token (check_token token (extract_bearer_token req.headers)) upstream req world

-- The loop, over the requests that the channel delivers.
unfoldable pub upstream_connection :
    String → Option Connection → List (Request × Answers) → List Outcome
unfolding dispatch
upstream_connection token upstream [] = []
upstream_connection token upstream ((req, world) ∷ requests) =
    let (outcome, upstream') = dispatch token upstream req world in
    outcome ∷ upstream_connection token upstream' requests

-- `ProxyService::call`: whether a request goes to the proxy or to the REST API.
unfoldable pub is_proxied : String → Bool
is_proxied path = starts_with path "/spark.connect.SparkConnectService"
