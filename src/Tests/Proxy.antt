-- ===== src/Tests/Proxy.antt =====
-- Runs of the proxy: the cache of dispatchers, the dispatcher's guard, and error responses.
use mathlib.Core.Bool.{false≢true}
use spark_plug.Common.{
  ◌≢◌, eq_iff, String, ◌≡◌, refl, true, false, none, some, List, [], ◌∷◌, ok, In, string_eq,
}
use spark_plug.Text.{bytes}
use spark_plug.Map.{get, insert}
use spark_plug.Database.Memory.{memory}
use spark_plug.Error.{upstream_request, to_string}
use spark_plug.Proxy.Cache.{Cache, Closed, cached, sender_for, reuse_or_spawn}
use spark_plug.Proxy.Cache.Isolation.{empty, served, Reach, here, next, cached-isolated}
use spark_plug.Text.{split_once}
use spark_plug.Proxy.Bearer.{extract_bearer_token}
use spark_plug.Proxy.Dispatch.{Meanwhile, dispatch_request, with_session, send_to, received}
use spark_plug.Proxy.Dispatch.Source.{IsOwn, dispatch_request-IsOwn}
use spark_plug.Proxy.Session.{Request, Answers, upstream_connection}
use spark_plug.Proxy.Session.Guard.{AreGuarded, upstream_connection-AreGuarded}
use spark_plug.Proxy.Grpc.{proxy_error_response}
use spark_plug.Proxy.Grpc.Encoding.{decode}
use spark_plug.Proxy.Grpc.Response.{response_message}
use spark_plug.Auth.{token_authorize}
use spark_plug.Proxy.Bearer.Agreement.{readers_agree}
use spark_plug.Tests.Data.{with_header, rows}

abbrev all_open : Closed
all_open n = false

abbrev served_t1 : Cache
served_t1 = (reuse_or_spawn all_open "t1" empty).1

reached : Reach empty served_t1
reached = next here (served all_open "t1")

cached-isolated_example :
    In (0, "t1") served_t1.spawned × (In (0, "t2") served_t1.spawned → ◌≡◌ {A = String} "t1" "t2")
unfolding reuse_or_spawn cached get insert
cached-isolated_example = cached-isolated served_t1 all_open "t1" "t2" 0 reached refl

abbrev answers : Answers
answers = record { resolved = ok (7, "10.0.0.1:15002"); parse = λ uri. ok tt; ready = ok tt }

-- A request with the session's token, and one with another.
abbrev requests : List (Request × Answers)
requests =
    (
      record { headers = with_header "authorization" "Bearer t1"; path_and_query = some "/p" },
      answers,
    )
    ∷ (record { headers = with_header "authorization" "Bearer t2"; path_and_query = none }, answers)
    ∷ []

upstream_connection-AreGuarded_example :
    AreGuarded "t1" none requests (upstream_connection "t1" none requests)
upstream_connection-AreGuarded_example = upstream_connection-AreGuarded "t1" none requests

response_message_example :
    decode (proxy_error_response (λ s. true) (upstream_request "reset")).grpc_message
    ≡ bytes (to_string (upstream_request "reset"))
response_message_example = response_message (λ s. true) (λ s h. refl) (upstream_request "reset")

-- What the other tasks do while a request with the first session's token is dispatched.
abbrev pub meanwhile : Meanwhile
meanwhile = record {
  now = all_open;
  later = all_open;
  during = λ c. c;
  sending = all_open;
  response = λ sender. some (ok 200);
}

dispatch_request-IsOwn_example :
    IsOwn memory meanwhile rows
      (with_header "authorization" "Bearer t1")
      empty
      200
      (dispatch_request memory meanwhile rows (with_header "authorization" "Bearer t1") empty).1
unfolding dispatch_request with_session send_to received extract_bearer_token split_once sender_for
    cached reuse_or_spawn get insert
dispatch_request-IsOwn_example =
    dispatch_request-IsOwn memory meanwhile rows (with_header "authorization" "Bearer t1") empty 200
      here here refl

-- The token of the session.
abbrev first_token : String
first_token = "t1"

filled : first_token ≢ ""
filled e = false≢true ((eq_iff first_token "").1 e)

readers_agree_example :
    token_authorize (with_header "authorization" "Bearer t1") ≡ ok (record { token = first_token })
unfolding extract_bearer_token split_once
readers_agree_example =
    (readers_agree (with_header "authorization" "Bearer t1") first_token filled).0 refl
