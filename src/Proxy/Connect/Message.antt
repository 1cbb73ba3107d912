-- ===== src/Proxy/Connect/Message.antt =====
-- The request that `send_session_message` of server/src/proxy.rs posts, read by the code of the
-- server that reads such requests.
use Prim.Native.String.{◌++◌}
use spark_plug.Common.{
  ℕ, String, ◌≡◌, ◌≢◌, refl, none, some, ok, bind_ok, ◌==◌, string_eq, if◌then◌else◌,
}
use spark_plug.Map.{get}
use spark_plug.Http.{HeaderMap, authorization}
use spark_plug.Proxy.Bearer.{extract_bearer_token}
use spark_plug.Proxy.Bearer.Agreement.{proxy_token_iff}
use spark_plug.Proxy.Connect.{Post, Http2, session_message, send_session_message}

-- The headers of a post as they arrive: `bearer_auth` is an `Authorization` header.
abbrev pub headers_of : Post → HeaderMap
headers_of p name =
    if name == authorization
    then some (ok ("Bearer " ++ p.bearer_auth))
    else elim (get p.headers name) [ none ↦ none | some v ↦ some (ok v) ]

-- A message that is sent has been posted to the session's address, names the message in its own
-- header, and carries a header from which the proxy reads the session's token, if it is not empty.
pub record IsPosted (h : Http2) (address token message : String) : Type 0 where
  pub post : Post
  pub status : ℕ
  pub sent : h.send post ≡ ok status
  pub accepted : h.error_for_status status ≡ ok tt
  pub url : post.url ≡ "http://" ++ (address ++ "/spark.connect.SparkConnectService/Config")
  pub named : headers_of post "X-Spark-Plug" ≡ some (ok message)
  pub token_read : extract_bearer_token (headers_of post) ≡ ok token

pub send_session_message-IsPosted :
    (h : Http2) (address token message : String) (u : Unit {0})
    → token ≢ ""
    → send_session_message h address token message ≡ ok u
    → IsPosted h address token message
unfolding send_session_message session_message get
send_session_message-IsPosted h address token message u filled e =
    let (client, e1, r1) = bind_ok h.build _ e in
    let (status, e2, r2) = bind_ok (h.send (session_message address token message)) _ r1 in
    record {
      post = session_message address token message;
      status = status;
      sent = e2;
      accepted = r2;
      url = refl;
      named = refl;
      token_read =
          (proxy_token_iff (headers_of (session_message address token message)) token).1
            (refl, filled);
    }
