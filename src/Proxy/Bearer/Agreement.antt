-- ===== src/Proxy/Bearer/Agreement.antt =====
-- When `extract_bearer_token` of server/src/proxy.rs accepts a header.
use Prim.Native.String.{◌++◌}
use spark_plug.Common.{
  String, ◌≡◌, ◌≢◌, ◌↔◌, Option, none, some, arith, ok, err, ap, eq_iff, string_eq,
}
use spark_plug.Text.{split_once}
use spark_plug.Text.Bearer.{IsBearer, split_bearer, bearer_of_split}
use spark_plug.Http.{HeaderMap, HeaderValue, authorization}
use spark_plug.Auth.{token_authorize}
use spark_plug.Auth.Bearer.{callback_token_iff}
use spark_plug.Proxy.Bearer.{extract_bearer_token, token_of, token_of_value}

token_of_ok :
    (o : Option (String × String)) (t : String)
    → token_of o ≡ ok t
    → (o ≡ some ("Bearer", t)) × (t ≢ "")
unfolding token_of
token_of_ok none t e = cc
token_of_ok (some (a, b)) t e = ground (arith, eq_iff a "Bearer", eq_iff b "")

token_of_value_ok :
    (v : Option HeaderValue) (t : String)
    → token_of_value v ≡ ok t
    → (v ≡ some (ok ("Bearer " ++ t))) × (t ≢ "")
unfolding token_of_value
token_of_value_ok none t e = cc
token_of_value_ok (some (err x)) t e = cc
token_of_value_ok (some (ok h)) t e =
    let (split, filled) = token_of_ok (split_once 32 h) t e in
    (ap (λ s. some (ok s)) (bearer_of_split h t split), filled)

token_of_bearer : (t : String) → t ≢ "" → token_of (some ("Bearer", t)) ≡ ok t
unfolding token_of
token_of_bearer t h = ground (arith, eq_iff t "")

-- The proxy takes `t` for the token exactly when the header reads `Bearer t` and `t` is not empty.
pub proxy_token_iff :
    (headers : HeaderMap) (t : String)
    → (extract_bearer_token headers ≡ ok t) ↔ (IsBearer headers t × (t ≢ ""))
unfolding extract_bearer_token
proxy_token_iff headers t = (
  λ e. token_of_value_ok (headers authorization) t e,
  λ p. rw (p.0, split_bearer) (token_of_bearer t p.1),
)

-- The proxy and the callbacks of the API read the same token, if it is not empty, from the same
-- headers: neither takes one that the other does not.
pub readers_agree :
    (headers : HeaderMap) (t : String)
    → t ≢ ""
    → (extract_bearer_token headers ≡ ok t) ↔ (token_authorize headers ≡ ok (record { token = t }))
readers_agree headers t filled = (
  λ e. (callback_token_iff headers t).1 ((proxy_token_iff headers t).0 e).0,
  λ e. (proxy_token_iff headers t).1 ((callback_token_iff headers t).0 e, filled),
)
