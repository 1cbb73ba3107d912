-- ===== src/Auth/Configured.antt =====
-- What the methods that `UserAuth::from_config` of server/src/auth.rs makes of the configuration
-- take for a user.
use mathlib.Core.Path.{subst}
use spark_plug.Common.{
  String, ◌≡◌, ◌≢◌, refl, Option, none, some, List, [], ◌∷◌, arith, Result, ok, All, In, ap, inl,
  inr, Bool-cases, ◌∙◌, sym, ◌>>=◌, bind_ok, ok_injective, ok-ne-err, ◌==◌, string_eq, eq_iff,
  ok_or, unwrap_or,
}
use spark_plug.Map.{Map, get}
use spark_plug.Http.{HeaderMap}
use spark_plug.Auth.{
  Identity, UserAuthMethod, AuthConfig, extract_bearer_token, jwt, jwks, jwks_token, jwt_create,
  jwks_create, auth_method, auth_methods_of, from_config, authorize, pem_content, decoding_key,
  algorithm, jwks_keys,
}
use spark_plug.Auth.Users.{Finds, here, later, authorize_iff}
use spark_plug.Auth.Credentials.{
  IsPem, IsPemKey, IsAlgorithm, IsKeySet, IsPem-of, IsPemKey-of, IsAlgorithm-of, IsKeySet-of,
}

module _ (I : Identity) where
  open I use {DecodingKey, Algorithm}

  -- A configured method accepts a token: `jwt` by the configured key and algorithm, `jwks` by the key
  -- of the configured URL that has the id that the token's header names, for the configured audience.
  pub data Accepts (c : AuthConfig) (token u : String) : Type 0 where
    by_jwt :
        (pem : String) (key : DecodingKey) (alg : Algorithm)
        → c.name ≡ "jwt"
        → IsPem I (unwrap_or c.options []) pem
        → IsPemKey I (unwrap_or c.options []) pem key
        → IsAlgorithm I (unwrap_or c.options []) alg
        → I.decode token key alg none ≡ ok u
        → Accepts c token u
    by_jwks :
        (keys : Map DecodingKey) (kid : String) (key : DecodingKey) (alg : Algorithm)
        → c.name ≡ "jwks"
        → IsKeySet I (unwrap_or c.options []) keys
        → I.decode_header token ≡ ok (some kid, alg)
        → get keys kid ≡ some key
        → I.decode token key alg (get (unwrap_or c.options []) "audience") ≡ ok u
        → Accepts c token u

  -- A user who is the subject of the bearer token that a request brings, as one of the configured
  -- methods accepts it.
  pub record IsDecoded (cs : List AuthConfig) (headers : HeaderMap) (u : String) : Type 0 where
    pub token : String
    pub read : extract_bearer_token headers ≡ ok (some token)
    pub config : AuthConfig
    pub listed : In config cs
    pub accepted : Accepts config token u

  -- What a method that is made of a configuration verifies.
  abbrev Verifies : AuthConfig → UserAuthMethod → Type 0
  Verifies c m =
      (headers : HeaderMap) (u : String)
      → m headers ≡ ok (some u)
      → (token : String) × (extract_bearer_token headers ≡ ok (some token)) × Accepts c token u

  decoded :
      (token u : String) (key : DecodingKey) (alg : Algorithm) (audience : Option String)
      → (I.decode token key alg audience >>= λ sub. ok (some sub)) ≡ ok (some u)
      → I.decode token key alg audience ≡ ok u
  decoded token u key alg audience e = ground arith

  -- What a method makes of the token, if there is one.
  abbrev with_token :
      (String → Result String (Option String)) → Option String → Result String (Option String)
  with_token f (some token) = f token
  with_token f none = ok none

  read_token :
      (f : String → Result String (Option String)) (t : Option String) (u : String)
      → with_token f t ≡ ok (some u)
      → (token : String) × (t ≡ some token) × (f token ≡ ok (some u))
  read_token f (some token) u e = (token, refl, e)
  read_token f none u e = cc

  jwt-Verifies :
      (c : AuthConfig) (pem : String) (key : DecodingKey) (alg : Algorithm)
      → c.name ≡ "jwt"
      → IsPem I (unwrap_or c.options []) pem
      → IsPemKey I (unwrap_or c.options []) pem key
      → IsAlgorithm I (unwrap_or c.options []) alg
      → Verifies c (jwt I key alg)
  unfolding jwt
  jwt-Verifies c pem key alg n p k a headers u e =
      let (t, read, r) = bind_ok (extract_bearer_token headers) _ e in
      let (token, same, d) =
        read_token (λ token. I.decode token key alg none >>= λ sub. ok (some sub)) t u r in
      (token, read ∙ ap ok same, by_jwt pem key alg n p k a (decoded token u key alg none d))

  some_of_ok_or :
      {A : Type 0} (o : Option A) (message : String) (a : A) → ok_or o message ≡ ok a → o ≡ some a
  some_of_ok_or (some b) message a e = ap some (ok_injective e)
  some_of_ok_or none message a e = absurd (ok-ne-err (sym e))

  jwks_token-Accepts :
      (c : AuthConfig) (keys : Map DecodingKey) (token u : String)
      → c.name ≡ "jwks"
      → IsKeySet I (unwrap_or c.options []) keys
      → jwks_token I keys (get (unwrap_or c.options []) "audience") token ≡ ok (some u)
      → Accepts c token u
  unfolding jwks_token
  jwks_token-Accepts c keys token u n s e =
      let (header, e1, r1) = bind_ok (I.decode_header token) _ e in
      let (kid, e2, r2) =
        bind_ok (ok_or header.0 "authorization error: jwt header should have a kid") _ r1 in
      let (jwk, e3, r3) =
        bind_ok (ok_or (get keys kid) "authorization error: jwt refer to a unknown key id") _ r2 in
      by_jwks keys kid jwk header.1 n s
        (e1 ∙ ap (λ k. ok (k, header.1)) (some_of_ok_or header.0 _ kid e2))
        (some_of_ok_or (get keys kid) _ jwk e3)
        (decoded token u jwk header.1 (get (unwrap_or c.options []) "audience") r3)

  jwks-Verifies :
      (c : AuthConfig) (keys : Map DecodingKey)
      → c.name ≡ "jwks"
      → IsKeySet I (unwrap_or c.options []) keys
      → Verifies c (jwks I keys (get (unwrap_or c.options []) "audience"))
  unfolding jwks
  jwks-Verifies c keys n s headers u e =
      let (t, read, r) = bind_ok (extract_bearer_token headers) _ e in
      let (token, same, d) =
        read_token (jwks_token I keys (get (unwrap_or c.options []) "audience")) t u r in
      (token, read ∙ ap ok same, jwks_token-Accepts c keys token u n s d)

  jwt_create-Verifies :
      (c : AuthConfig) (m : UserAuthMethod)
      → c.name ≡ "jwt"
      → jwt_create I (unwrap_or c.options []) ≡ ok m
      → Verifies c m
  unfolding jwt_create
  jwt_create-Verifies c m n e =
      let options = unwrap_or c.options [] in
      let (pem, e1, r1) =
        bind_ok (pem_content I (get options "pem") (get options "pem_file")) _ e in
      let (key, e2, r2) =
        bind_ok (decoding_key I (unwrap_or (get options "pem_type") "rsa") pem) _ r1 in
      let (alg, e3, r3) = bind_ok (algorithm I (get options "algorithm")) _ r2 in
      subst (Verifies c) (ok_injective r3) (
        jwt-Verifies c pem key alg n (IsPem-of I options _ _ pem refl refl e1)
          (IsPemKey-of I options _ pem key refl e2) (IsAlgorithm-of I options _ alg refl e3))

  jwks_create-Verifies :
      (c : AuthConfig) (m : UserAuthMethod)
      → c.name ≡ "jwks"
      → jwks_create I (unwrap_or c.options []) ≡ ok m
      → Verifies c m
  unfolding jwks_create
  jwks_create-Verifies c m n e =
      let options = unwrap_or c.options [] in
      let (keys, e1, r1) =
        bind_ok (jwks_keys I (get options "jwks_url") (get options "oidc_url")) _ e in
      subst (Verifies c) (ok_injective r1)
        (jwks-Verifies c keys n (IsKeySet-of I options _ _ keys refl refl e1))

  auth_method-Verifies :
      (c : AuthConfig) (m : UserAuthMethod)
      → c.name ≢ "remote_user"
      → auth_method I c ≡ ok m
      → Verifies c m
  unfolding auth_method
  auth_method-Verifies c m h e = elim (Bool-cases (c.name == "remote_user")) [
    | inl t ↦ absurd (h ((eq_iff c.name "remote_user").0 t))
    | inr f ↦ elim (Bool-cases (c.name == "jwt")) [
      | inl t ↦ jwt_create-Verifies c m ((eq_iff c.name "jwt").0 t) (rw (f, t) at e)
      | inr g ↦ elim (Bool-cases (c.name == "jwks")) [
        | inl t ↦ jwks_create-Verifies c m ((eq_iff c.name "jwks").0 t) (rw (f, g, t) at e)
        | inr k ↦ absurd (ok-ne-err (sym (rw (f, g, k) at e)))
      ]
    ]
  ]

  -- Each method verifies what one of the configurations says.
  abbrev IsOf : List AuthConfig → UserAuthMethod → Type 0
  IsOf cs m = (c : AuthConfig) × In c cs × Verifies c m

  All-later :
      (c : AuthConfig) (cs : List AuthConfig) (ms : List UserAuthMethod)
      → All (IsOf cs) ms
      → All (IsOf (c ∷ cs)) ms
  All-later c cs [] h = tt
  All-later c cs (m ∷ ms) ((d, listed, v), h) = ((d, inr listed, v), All-later c cs ms h)

  All-verify :
      (cs : List AuthConfig) (ms : List UserAuthMethod)
      → All (λ c. c.name ≢ "remote_user") cs
      → auth_methods_of I cs ≡ ok ms
      → All (IsOf cs) ms
  unfolding auth_methods_of
  All-verify [] ms h e = subst (All (IsOf [])) (ok_injective e) tt
  All-verify (c ∷ cs) ms h e =
      let (m, e1, r1) = bind_ok (auth_method I c) _ e in
      let (ns, e2, r2) = bind_ok (auth_methods_of I cs) _ r1 in
      subst (All (IsOf (c ∷ cs))) (ok_injective r2) (
        (c, inl refl, auth_method-Verifies c m h.0 e1),
        All-later c cs ns (All-verify cs ns h.1 e2),
      )

  found-IsDecoded :
      (cs : List AuthConfig) (headers : HeaderMap) (u : String) {ms : List UserAuthMethod}
      → All (IsOf cs) ms
      → Finds headers u ms
      → IsDecoded cs headers u
  found-IsDecoded cs headers u h (here e) =
      let (c, listed, verifies) = h.0 in
      let (token, read, accepted) = verifies headers u e in
      record { token = token; read = read; config = c; listed = listed; accepted = accepted }
  found-IsDecoded cs headers u h (later silent f) = found-IsDecoded cs headers u h.1 f

  -- Where the configuration lists methods and none of them is `remote_user`, a request that is
  -- given a user brings a bearer token that one of these methods accepts, with this user as its
  -- subject: a `jwt` by the key of its PEM text or file and by its algorithm, or a `jwks` by the key
  -- of its URL under the id that the token's header names, and for its audience, if it has one.
  pub configured-IsDecoded :
      (cs : List AuthConfig) (ms : List UserAuthMethod) (headers : HeaderMap) (u : String)
      → from_config I (some cs) ≡ ok ms
      → All (λ c. c.name ≢ "remote_user") cs
      → authorize ms headers ≡ ok (record { name = u })
      → IsDecoded cs headers u
  unfolding from_config
  configured-IsDecoded cs ms headers u made h e =
      found-IsDecoded cs headers u (All-verify cs ms h made) ((authorize_iff headers ms u).0 e)
