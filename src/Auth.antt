-- ===== src/Auth.antt =====
-- server/src/auth.rs: how a request is given a user, or a callback its bearer token. The JWT and
-- JWKS libraries, the file system and `whoami` are the parameter `Identity`.
pub mod Bearer
pub mod Users
pub mod Credentials
pub mod Configured
use Prim.Native.String.{◌++◌}
use spark_plug.Common.{
  String, Option, none, some, List, [], ◌∷◌, Result, ok, err, ◌==◌, string_eq, if◌then◌else◌, ◌>>=◌,
  ok_or, unwrap_or,
}
use spark_plug.Map.{Map, get}
use spark_plug.Text.{starts_with, drop, split_once}
use spark_plug.Http.{Status, unauthorized, bad_request, HeaderMap, HeaderValue, authorization}

-- `UserId` and `BearerToken`
pub record UserId : Type 0 where
  pub name : String

pub record BearerToken : Type 0 where
  pub token : String

-- The errors of `anyhow::Result` are texts.
after_bearer : String → Option String
after_bearer h = if starts_with h "Bearer " then some (drop 7 h) else none

bearer_of_value : Option HeaderValue → Result String (Option String)
unfolding after_bearer
bearer_of_value none = ok none
bearer_of_value (some (err e)) = err e
bearer_of_value (some (ok h)) = ok (after_bearer h)

unfoldable pub extract_bearer_token : HeaderMap → Result String (Option String)
unfolding bearer_of_value
extract_bearer_token headers = bearer_of_value (headers authorization)

-- The trait `UserAuthMethod`: its one method.
abbrev pub UserAuthMethod : Type 0
UserAuthMethod = HeaderMap → Result String (Option String)

pub record Identity : Type 1 where
  -- `whoami::username`
  pub username : Result String String
  -- `fs::read_to_string`
  pub read_to_string : String → Result String String
  pub DecodingKey : Type 0
  pub Algorithm : Type 0
  pub rs256 : Algorithm
  pub from_rsa_pem : String → Result String DecodingKey
  pub from_ec_pem : String → Result String DecodingKey
  pub from_ed_pem : String → Result String DecodingKey
  pub from_str : String → Result String Algorithm
  -- `decode` with `Validation::new(alg)` and, if given, `set_audience`: the claim `sub`
  pub decode : String → DecodingKey → Algorithm → Option String → Result String String
  -- `decode_header`: the fields `kid` and `alg`
  pub decode_header : String → Result String (Option String × Algorithm)
  -- `Jwks::from_jwks_url` and `from_oidc_url`: the decoding key of each key id
  pub from_jwks_url : String → Result String (Map DecodingKey)
  pub from_oidc_url : String → Result String (Map DecodingKey)

pub record AuthConfig : Type 0 where
  pub name : String
  pub options : Option (Map String)

-- `RemoteUserAuth::authorize_user`
unfoldable pub remote_user : String → UserAuthMethod
remote_user header headers = elim (headers header) [ some (ok v) ↦ ok (some v) | _ ↦ ok none ]

module _ (I : Identity) where
  open I use {DecodingKey, Algorithm}

  -- `CurrentUserAuth::authorize_user`
  unfoldable pub current_user : UserAuthMethod
  current_user headers = do u ← I.username; ok (some u)

  -- `JWTAuth::authorize_user`
  unfoldable pub jwt : DecodingKey → Algorithm → UserAuthMethod
  unfolding extract_bearer_token
  jwt key alg headers = do
    t ← extract_bearer_token headers
    elim t [ some token ↦ (do sub ← I.decode token key alg none; ok (some sub)) | none ↦ ok none ]

  unfoldable pub jwks_token :
      Map DecodingKey → Option String → String → Result String (Option String)
  jwks_token keys audience token = do
    header ← I.decode_header token
    kid ← ok_or header.0 "authorization error: jwt header should have a kid"
    jwk ← ok_or (get keys kid) "authorization error: jwt refer to a unknown key id"
    sub ← I.decode token jwk header.1 audience
    ok (some sub)

  -- `JWKSAuth::authorize_user`
  unfoldable pub jwks : Map DecodingKey → Option String → UserAuthMethod
  unfolding extract_bearer_token jwks_token
  jwks keys audience headers = do
    t ← extract_bearer_token headers
    elim t [ some token ↦ jwks_token keys audience token | none ↦ ok none ]

  -- The `create` functions. A panic is an error: the server does not start.
  remote_user_create : Map String → Result String UserAuthMethod
  remote_user_create options = do
    header ←
        ok_or (get options "header") "'header' option must be set for remote_user authentication"
    ok (remote_user header)

  unfoldable pub pem_content : Option String → Option String → Result String String
  pem_content (some _) (some _) = err "pem and pem_file cannot both be defined"
  pem_content (some pem) none = ok pem
  pem_content none (some pem_file) = I.read_to_string pem_file
  pem_content none none = err "One of pem or pem_file must be defined for JWT auth"

  unfoldable pub decoding_key : String → String → Result String DecodingKey
  decoding_key t pem =
      if t == "rsa"
      then I.from_rsa_pem pem
      else if t == "ec"
      then I.from_ec_pem pem
      else if t == "ed"
      then I.from_ed_pem pem
      else err ("Unknown PEM type " ++ t)

  unfoldable pub algorithm : Option String → Result String Algorithm
  algorithm none = ok I.rs256
  algorithm (some alg) = I.from_str alg

  unfoldable pub jwt_create : Map String → Result String UserAuthMethod
  unfolding pem_content decoding_key algorithm
  jwt_create options = do
    pem ← pem_content (get options "pem") (get options "pem_file")
    key ← decoding_key (unwrap_or (get options "pem_type") "rsa") pem
    alg ← algorithm (get options "algorithm")
    ok (jwt key alg)

  unfoldable pub jwks_keys : Option String → Option String → Result String (Map DecodingKey)
  jwks_keys (some _) (some _) = err "JWKS and OIDC URL cannot both be specified"
  jwks_keys (some jwks_url) none = I.from_jwks_url jwks_url
  jwks_keys none (some oidc_url) = I.from_oidc_url oidc_url
  jwks_keys none none = err "Either jwks_url or oidc_url must be provided"

  unfoldable pub jwks_create : Map String → Result String UserAuthMethod
  unfolding jwks_keys
  jwks_create options = do
    keys ← jwks_keys (get options "jwks_url") (get options "oidc_url")
    ok (jwks keys (get options "audience"))

  unfoldable pub auth_method : AuthConfig → Result String UserAuthMethod
  unfolding remote_user_create jwt_create jwks_create
  auth_method c =
      let options = unwrap_or c.options [] in
      if c.name == "remote_user"
      then remote_user_create options
      else if c.name == "jwt"
      then jwt_create options
      else if c.name == "jwks"
      then jwks_create options
      else err ("Unknown authentication method: " ++ c.name)

  -- The loop of `UserAuth::from_config` over the configured methods.
  unfoldable pub auth_methods_of : List AuthConfig → Result String (List UserAuthMethod)
  unfolding auth_method
  auth_methods_of [] = ok []
  auth_methods_of (c ∷ cs) = do m ← auth_method c; ms ← auth_methods_of cs; ok (m ∷ ms)

  -- `UserAuth::from_config`
  unfoldable pub from_config : Option (List AuthConfig) → Result String (List UserAuthMethod)
  unfolding auth_methods_of
  from_config (some configs) = auth_methods_of configs
  from_config none = ok (current_user ∷ [])

-- What one round of the loop of `UserAuth::authorize` finds; an error is only logged.
found : Result String (Option String) → Option String
found (ok o) = o
found (err e) = none

-- The loop of `UserAuth::authorize`: the first method that names a user decides.
first_user : List UserAuthMethod → HeaderMap → Option String
unfolding found
first_user [] headers = none
first_user (m ∷ ms) headers =
    let rest = first_user ms headers in
    elim (found (m headers)) [ some user ↦ some user | none ↦ rest ]

answer : Option String → Result Status UserId
answer (some username) = ok (record { name = username })
answer none = err unauthorized

-- `UserAuth::authorize`: the identity that the request's extensions get, or the response.
unfoldable pub authorize : List UserAuthMethod → HeaderMap → Result Status UserId
unfolding first_user answer
authorize methods headers = answer (first_user methods headers)

token_of_split : Option (String × String) → Result Status BearerToken
token_of_split (some (scheme, token)) =
    if scheme == "Bearer" then ok (record { token = token }) else err unauthorized
token_of_split none = err unauthorized

token_of_value : Option HeaderValue → Result Status BearerToken
unfolding token_of_split
token_of_value none = err unauthorized
token_of_value (some (err _)) = err bad_request
token_of_value (some (ok h)) = token_of_split (split_once 32 h)

-- `TokenAuth::authorize`: the token that the request's extensions get, or the response.
unfoldable pub token_authorize : HeaderMap → Result Status BearerToken
unfolding token_of_value
token_authorize headers = token_of_value (headers authorization)
