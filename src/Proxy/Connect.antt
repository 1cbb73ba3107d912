-- ===== src/Proxy/Connect.antt =====
-- server/src/proxy.rs: `connect_upstream`, and the request of `send_session_message`.
pub mod Settles
pub mod Message
use Prim.Native.String.{◌++◌}
use spark_plug.Common.{ℕ, String, List, [], ◌∷◌, Result, ok, err, ◌>>=◌}
use spark_plug.Error.{Error, upstream_connect, upstream_handshake}

-- `TcpStream::connect`, and the handshake of `hyper` over a stream, which gives the sender.
pub record Dial : Type 0 where
  pub tcp : String → Result String ℕ
  pub handshake : ℕ → Result String ℕ

-- `Result::map_err`
abbrev pub map_err {ℓ} : {A : Type ℓ} → (String → Error) → Result String A → Result Error A
map_err f (ok a) = ok a
map_err f (err e) = err (f e)

unfoldable pub connect_upstream : Dial → String → Result Error ℕ
connect_upstream d address = do
  stream ← map_err upstream_connect (d.tcp address)
  map_err upstream_handshake (d.handshake stream)

-- What `send_session_message` posts.
pub record Post : Type 0 where
  pub url : String
  pub bearer_auth : String
  pub headers : List (String × String)

unfoldable pub session_message : String → String → String → Post
session_message address token message = record {
  url = "http://" ++ (address ++ "/spark.connect.SparkConnectService/Config");
  bearer_auth = token;
  headers =
      ("X-Spark-Plug", message) ∷ ("Content-Type", "application/grpc") ∷ ("TE", "trailers") ∷ [];
}

-- `reqwest`: `build` of the client, `send`, which answers a status, and `error_for_status` of it.
pub record Http2 : Type 0 where
  pub build : Result String (Unit {0})
  pub send : Post → Result String ℕ
  pub error_for_status : ℕ → Result String (Unit {0})

unfoldable pub send_session_message : Http2 → String → String → String → Result String (Unit {0})
unfolding session_message
send_session_message h address token message = do
  client ← h.build
  status ← h.send (session_message address token message)
  h.error_for_status status
