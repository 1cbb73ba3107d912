-- ===== src/Tests/Auth.antt =====
-- Runs of the authentication of users, callbacks and proxied requests.
use mathlib.Core.Bool.{false≢true}
use spark_plug.Common.{String, ◌≢◌, refl, some, List, [], ◌∷◌, ok, err, eq_iff, string_eq}
use spark_plug.Http.{HeaderMap}
use spark_plug.Auth.{authorize, extract_bearer_token}
use spark_plug.Map.{get}
use spark_plug.Text.{starts_with, drop}
use spark_plug.Auth.{
  Identity, AuthConfig, from_config, jwt, jwks, jwks_token, jwks_keys, jwks_create, jwt_create,
  pem_content, decoding_key, algorithm,
}
use spark_plug.Auth.Configured.{IsDecoded, configured-IsDecoded}
use spark_plug.Tests.Data.{with_header}

abbrev bearer : HeaderMap
bearer = with_header "authorization" "Bearer t1"

abbrev token : String
token = "t1"

filled : token ≢ ""
filled e = false≢true ((eq_iff token "").1 e)

-- A key that accepts every token of "ada".
abbrev pub identity : Identity
identity = record {
  username = ok "server";
  read_to_string = λ path. err "not found";
  DecodingKey = String;
  Algorithm = String;
  rs256 = "RS256";
  from_rsa_pem = λ pem. ok pem;
  from_ec_pem = λ pem. ok pem;
  from_ed_pem = λ pem. ok pem;
  from_str = λ name. ok name;
  decode = λ token key alg audience. ok "ada";
  decode_header = λ token. ok (some "k1", "RS256");
  from_jwks_url = λ url. ok (("k1", "key") ∷ []);
  from_oidc_url = λ url. ok (("k1", "key") ∷ []);
}

-- Of two configured methods, the keys of a URL and a PEM text, the first accepts the token.
abbrev configured : List AuthConfig
configured =
    (record {
      name = "jwks";
      options = some (("jwks_url", "https://keys") ∷ ("audience", "spark") ∷ []);
    })
    ∷ (record { name = "jwt"; options = some (("pem", "key") ∷ []) })
    ∷ []

jwks-ne-remote : ◌≢◌ {A = String} "jwks" "remote_user"
jwks-ne-remote e = false≢true ((eq_iff "jwks" "remote_user").1 e)

jwt-ne-remote : ◌≢◌ {A = String} "jwt" "remote_user"
jwt-ne-remote e = false≢true ((eq_iff "jwt" "remote_user").1 e)

configured-IsDecoded_example : IsDecoded identity configured bearer "ada"
unfolding from_config jwt_create jwks_create jwks_keys pem_content decoding_key algorithm get
    authorize jwks jwks_token extract_bearer_token starts_with drop
configured-IsDecoded_example =
    configured-IsDecoded identity configured
      (jwks identity (("k1", "key") ∷ []) (some "spark") ∷ jwt identity "key" "RS256" ∷ []) bearer
      "ada" refl (jwks-ne-remote, (jwt-ne-remote, tt)) refl
