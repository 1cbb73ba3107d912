-- ===== src/PythonClient/Tokens.antt =====
-- The token that a session of the Python client brings to the proxy (`create_session` and
-- `TokenInterceptor` of clients/python/spark_plug_client/__init__.py, against server/src/proxy.rs).
use Prim.Native.String.{◌++◌}
use text.Mathlib.TextLemmas.{append_assoc, append-nil, cons-append, nil-append}
use spark_plug.Common.{
  ℕ, String, ◌≡◌, refl, true, Option, none, some, List, [], ◌∷◌, arith, ok, ap, sym, ◌∙◌, ◌==◌,
  string_eq, eq_refl, if◌then◌else◌, unwrap_or, Bool-cases, inl, inr,
}
use spark_plug.Common.{◌++◌ as ◌followed_by◌}
use spark_plug.Map.{get}
use spark_plug.Text.{split, push_head}
use spark_plug.Text.Show.{show}
use spark_plug.Text.Pieces.{lacks, push_text, split-append, lacks-append, lacks-show}
use spark_plug.Text.Bearer.{IsBearer}
use spark_plug.Http.{HeaderMap, authorization}
use spark_plug.PythonClient.{
  ParsedUrl, ChannelBuilder, port_opt, base_url, channel_builder, intercept,
}

-- The headers of a call as they arrive, of its metadata.
abbrev pub header_map : List (String × String) → HeaderMap
header_map metadata name = elim (get metadata name) [ none ↦ none | some v ↦ some (ok v) ]

-- The metadata of the calls on a channel, as PySpark and gRPC are documented to make it: the
-- `token` parameter of a text with SSL is sent as a bearer token, and an interceptor is asked
-- about the call's own metadata, if it has any, which has no `authorization`.
pub record Calls : Type 0 where
  pub metadata_of : ChannelBuilder → List (String × String)
  pub own : Option (List (String × String))
  pub plain : get (unwrap_or own []) authorization ≡ none
  pub credentials :
      (text base token : String)
      → split 59 text ≡ base ∷ "use_ssl=true" ∷ ("token=" ++ token) ∷ []
      → get (metadata_of (record { url = text; interceptor = none })) authorization
        ≡ some ("Bearer " ++ token)
  pub intercepted :
      (text token : String)
      → metadata_of (record { url = text; interceptor = some token }) ≡ intercept token own

get-followed :
    (m : List (String × String)) (k v : String)
    → get m k ≡ none
    → get (m followed_by ((k, v) ∷ [])) k ≡ some v
unfolding get
get-followed [] k v h = rw (eq_refl k) refl
get-followed ((j, w) ∷ m) k v h = ground (arith, get-followed m k v)

lacks-port_opt : (port : Option ℕ) → lacks 59 (port_opt port) ≡ true
lacks-port_opt none = unfold lacks in refl
lacks-port_opt (some p) = lacks-append 59 ":" (show p) (unfold lacks in refl) (lacks-show p)

lacks-base_url :
    (parsed : ParsedUrl) (port : Option ℕ)
    → lacks 59 (unwrap_or parsed.hostname "None") ≡ true
    → lacks 59 (base_url parsed port) ≡ true
lacks-base_url parsed port h =
    lacks-append 59 "sc://" (unwrap_or parsed.hostname "None" ++ port_opt port)
      (unfold lacks in refl)
      (lacks-append 59 (unwrap_or parsed.hostname "None") (port_opt port) h (lacks-port_opt port))

split-lacking : (t : String) → lacks 59 t ≡ true → split 59 t ≡ t ∷ []
split-lacking t h =
    ap (split 59) (sym (append-nil t))
    ∙ split-append 59 t "" h
    ∙ (unfold push_text split in ap (λ s. s ∷ []) (append-nil t))

split-ssl : (t : String) → split 59 ("/;use_ssl=true;" ++ t) ≡ "/" ∷ "use_ssl=true" ∷ split 59 t
unfolding split push_head
split-ssl t =
    rw
      (
        cons-append, cons-append, cons-append, cons-append, cons-append, cons-append, cons-append,
        cons-append, cons-append, cons-append, cons-append, cons-append, cons-append, cons-append,
        cons-append, nil-append,
      )
      refl

lacks-token : (token : String) → lacks 59 token ≡ true → lacks 59 ("token=$" ++ token) ≡ true
lacks-token token k = lacks-append 59 "token=$" token (unfold lacks in refl) k

-- The parameters of the text of a channel with SSL.
split-channel :
    (base token : String)
    → lacks 59 base ≡ true
    → lacks 59 token ≡ true
    → split 59 (base ++ ("/;use_ssl=true;token=$" ++ token))
      ≡ (base ++ "/") ∷ "use_ssl=true" ∷ ("token=" ++ ("$" ++ token)) ∷ []
split-channel base token h k =
    ap (λ t. split 59 (base ++ t)) (append_assoc "/;use_ssl=true;" "token=$" token)
    ∙ split-append 59 base ("/;use_ssl=true;" ++ ("token=$" ++ token)) h
    ∙ ap (push_text base) (
        split-ssl ("token=$" ++ token)
        ∙ ap (λ ts. "/" ∷ "use_ssl=true" ∷ ts)
            (split-lacking ("token=$" ++ token) (lacks-token token k)))
    ∙ (unfold push_text in
        ap (λ t. (base ++ "/") ∷ "use_ssl=true" ∷ t ∷ []) (append_assoc "token=" "$" token))

header_read :
    (m : List (String × String)) (v : String)
    → get m authorization ≡ some v
    → header_map m authorization ≡ some (ok v)
header_read m v e = rw (e, header_map) refl

-- The token that the proxy is sent.
abbrev pub token_sent : ParsedUrl → String → String
token_sent parsed token = if parsed.scheme == "https" then "$" ++ token else token

module _ (calls : Calls) (parsed : ParsedUrl) (port : Option ℕ) (token : String)
    (host_plain : lacks 59 (unwrap_or parsed.hostname "None") ≡ true)
    (token_plain : lacks 59 token ≡ true) where
  abbrev metadata : ChannelBuilder → List (String × String)
  metadata = calls.metadata_of

  get-ssl :
      get
        (metadata (record {
          url = base_url parsed port ++ ("/;use_ssl=true;token=$" ++ token);
          interceptor = none;
        }))
        authorization
      ≡ some ("Bearer " ++ ("$" ++ token))
  get-ssl =
      calls.credentials (base_url parsed port ++ ("/;use_ssl=true;token=$" ++ token))
        (base_url parsed port ++ "/") ("$" ++ token)
        (split-channel (base_url parsed port) token (lacks-base_url parsed port host_plain)
          token_plain)

  get-intercepted :
      get (metadata (record { url = base_url parsed port; interceptor = some token })) authorization
      ≡ some ("Bearer " ++ token)
  get-intercepted =
      ap (λ m. get m authorization) (calls.intercepted (base_url parsed port) token)
      ∙ (unfold intercept in
          get-followed (unwrap_or calls.own []) authorization ("Bearer " ++ token) calls.plain)

  -- A call on the channel brings this token.
  pub bearer_sent :
      IsBearer (header_map (metadata (channel_builder parsed port token))) (token_sent parsed token)
  unfolding channel_builder
  bearer_sent = elim (Bool-cases (parsed.scheme == "https")) [
    | inl e ↦ rw e (header_read _ _ get-ssl)
    | inr e ↦ rw e (header_read _ _ get-intercepted)
  ]
