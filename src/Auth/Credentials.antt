-- ===== src/Auth/Credentials.antt =====
-- What the options of a configured method (server/src/auth.rs) say of its keys.
use spark_plug.Common.{
  String, ◌≡◌, Option, none, some, ok, ap, inl, inr, Bool-cases, ◌∙◌, sym, ok_injective, ok-ne-err,
  ◌==◌, string_eq, eq_iff, unwrap_or,
}
use spark_plug.Map.{Map, get}
use spark_plug.Auth.{Identity, pem_content, decoding_key, algorithm, jwks_keys}

module _ (I : Identity) where
  open I use {DecodingKey, Algorithm}

  -- The PEM text that the options give: their own, or that of the file that they name, not both.
  pub data IsPem (options : Map String) (pem : String) : Type 0 where
    given : get options "pem" ≡ some pem → get options "pem_file" ≡ none → IsPem options pem
    in_file :
        (path : String)
        → get options "pem" ≡ none
        → get options "pem_file" ≡ some path
        → I.read_to_string path ≡ ok pem
        → IsPem options pem

  -- The key that is read from a PEM text of the type of the options, which is "rsa" where they name
  -- none.
  pub data IsPemKey (options : Map String) (pem : String) (key : DecodingKey) : Type 0 where
    untyped : get options "pem_type" ≡ none → I.from_rsa_pem pem ≡ ok key → IsPemKey options pem key
    rsa :
        get options "pem_type" ≡ some "rsa" → I.from_rsa_pem pem ≡ ok key → IsPemKey options pem key
    ec : get options "pem_type" ≡ some "ec" → I.from_ec_pem pem ≡ ok key → IsPemKey options pem key
    ed : get options "pem_type" ≡ some "ed" → I.from_ed_pem pem ≡ ok key → IsPemKey options pem key

  -- The algorithm of the options, which is RS256 where they name none.
  pub data IsAlgorithm (options : Map String) (alg : Algorithm) : Type 0 where
    default : get options "algorithm" ≡ none → alg ≡ I.rs256 → IsAlgorithm options alg
    named :
        (name : String)
        → get options "algorithm" ≡ some name
        → I.from_str name ≡ ok alg
        → IsAlgorithm options alg

  -- The keys of the one URL that the options give.
  pub data IsKeySet (options : Map String) (keys : Map DecodingKey) : Type 0 where
    of_jwks :
        (url : String)
        → get options "jwks_url" ≡ some url
        → get options "oidc_url" ≡ none
        → I.from_jwks_url url ≡ ok keys
        → IsKeySet options keys
    of_oidc :
        (url : String)
        → get options "jwks_url" ≡ none
        → get options "oidc_url" ≡ some url
        → I.from_oidc_url url ≡ ok keys
        → IsKeySet options keys

  pub IsPem-of :
      (options : Map String) (a b : Option String) (pem : String)
      → get options "pem" ≡ a
      → get options "pem_file" ≡ b
      → pem_content I a b ≡ ok pem
      → IsPem options pem
  unfolding pem_content
  IsPem-of options (some x) (some y) pem p q e = absurd (ok-ne-err (sym e))
  IsPem-of options (some x) none pem p q e = given (p ∙ ap some (ok_injective e)) q
  IsPem-of options none (some path) pem p q e = in_file path p q e
  IsPem-of options none none pem p q e = absurd (ok-ne-err (sym e))

  IsPemKey-typed :
      (options : Map String) (t pem : String) (key : DecodingKey)
      → get options "pem_type" ≡ some t
      → decoding_key I t pem ≡ ok key
      → IsPemKey options pem key
  unfolding decoding_key
  IsPemKey-typed options t pem key p e = elim (Bool-cases (t == "rsa")) [
    | inl a ↦ rsa (p ∙ ap some ((eq_iff t "rsa").0 a)) (rw a at e)
    | inr a ↦ elim (Bool-cases (t == "ec")) [
      | inl b ↦ ec (p ∙ ap some ((eq_iff t "ec").0 b)) (rw (a, b) at e)
      | inr b ↦ elim (Bool-cases (t == "ed")) [
        | inl c ↦ ed (p ∙ ap some ((eq_iff t "ed").0 c)) (rw (a, b, c) at e)
        | inr c ↦ absurd (ok-ne-err (sym (rw (a, b, c) at e)))
      ]
    ]
  ]

  pub IsPemKey-of :
      (options : Map String) (o : Option String) (pem : String) (key : DecodingKey)
      → get options "pem_type" ≡ o
      → decoding_key I (unwrap_or o "rsa") pem ≡ ok key
      → IsPemKey options pem key
  IsPemKey-of options none pem key p e = untyped p (unfold decoding_key in e)
  IsPemKey-of options (some t) pem key p e = IsPemKey-typed options t pem key p e

  pub IsAlgorithm-of :
      (options : Map String) (o : Option String) (alg : Algorithm)
      → get options "algorithm" ≡ o
      → algorithm I o ≡ ok alg
      → IsAlgorithm options alg
  unfolding algorithm
  IsAlgorithm-of options none alg p e = default p (sym (ok_injective e))
  IsAlgorithm-of options (some name) alg p e = named name p e

  pub IsKeySet-of :
      (options : Map String) (a b : Option String) (keys : Map DecodingKey)
      → get options "jwks_url" ≡ a
      → get options "oidc_url" ≡ b
      → jwks_keys I a b ≡ ok keys
      → IsKeySet options keys
  unfolding jwks_keys
  IsKeySet-of options (some x) (some y) keys p q e = absurd (ok-ne-err (sym e))
  IsKeySet-of options (some url) none keys p q e = of_jwks url p q e
  IsKeySet-of options none (some url) keys p q e = of_oidc url p q e
  IsKeySet-of options none none keys p q e = absurd (ok-ne-err (sym e))
