-- ===== src/Auth/Bearer.antt =====
-- When `TokenAuth` and `extract_bearer_token` of server/src/auth.rs accept a header.
use Prim.Native.String.{◌++◌}
use spark_plug.Common.{
  String, ◌≡◌, ◌↔◌, Option, none, some, arith, ok, err, ap, eq_iff, string_eq, ok_injective, true,
}
use spark_plug.Text.{split_once, starts_with, drop}
use spark_plug.Text.Bearer.{
  IsBearer, split_bearer, bearer_of_split, bearer_of_prefix, prefix_bearer, drop_bearer,
}
use spark_plug.Http.{HeaderMap, HeaderValue, authorization}
use spark_plug.Auth.{
  BearerToken, extract_bearer_token, bearer_of_value, after_bearer, token_authorize, token_of_value,
  token_of_split,
}

abbrev token : String → BearerToken
token t = record { token = t }

token_of_split_ok :
    (o : Option (String × String)) (t : String)
    → token_of_split o ≡ ok (token t)
    → o ≡ some ("Bearer", t)
unfolding token_of_split
token_of_split_ok none t e = cc
token_of_split_ok (some (a, b)) t e = ground (arith, eq_iff a "Bearer")

token_of_value_ok :
    (v : Option HeaderValue) (t : String)
    → token_of_value v ≡ ok (token t)
    → v ≡ some (ok ("Bearer " ++ t))
unfolding token_of_value
token_of_value_ok none t e = cc
token_of_value_ok (some (err x)) t e = cc
token_of_value_ok (some (ok h)) t e =
    ap (λ s. some (ok s)) (bearer_of_split h t (token_of_split_ok (split_once 32 h) t e))

-- A callback is given the token `t` exactly when its header reads `Bearer t`, an empty `t` too.
pub callback_token_iff :
    (headers : HeaderMap) (t : String)
    → (token_authorize headers ≡ ok (record { token = t })) ↔ IsBearer headers t
unfolding token_authorize
callback_token_iff headers t =
    (λ e. token_of_value_ok (headers authorization) t e, λ p. rw (p, split_bearer))

after_bearer-some : (h t : String) → after_bearer h ≡ some t → h ≡ "Bearer " ++ t
unfolding after_bearer
after_bearer-some h t e =
    let starts : starts_with h "Bearer " ≡ true = ground arith in
    let rest : drop 7 h ≡ t = ground arith in rw (← rest) (bearer_of_prefix h starts)

bearer_of_value_ok :
    (v : Option HeaderValue) (t : String)
    → bearer_of_value v ≡ ok (some t)
    → v ≡ some (ok ("Bearer " ++ t))
unfolding bearer_of_value
bearer_of_value_ok none t e = cc
bearer_of_value_ok (some (err x)) t e = cc
bearer_of_value_ok (some (ok h)) t e =
    ap (λ s. some (ok s)) (after_bearer-some h t (ok_injective e))

-- A JWT is read from the header exactly when the header reads `Bearer` and the JWT.
pub user_token_iff :
    (headers : HeaderMap) (t : String)
    → (extract_bearer_token headers ≡ ok (some t)) ↔ IsBearer headers t
unfolding extract_bearer_token
user_token_iff headers t =
    (λ e. bearer_of_value_ok (headers authorization) t e, λ p. rw (p, prefix_bearer, drop_bearer))
