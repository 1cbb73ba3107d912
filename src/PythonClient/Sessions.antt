-- ===== src/PythonClient/Sessions.antt =====
-- The sessions that `create_session` of clients/python/spark_plug_client/__init__.py opens, at the
-- proxy of server/src/proxy.rs.
use Prim.Native.String.{◌++◌}
use text.Mathlib.TextLemmas.{cons≢nil, cons-append}
use mathlib.Core.Path.{subst}
use spark_plug.Text.Bearer.{IsBearer}
use spark_plug.Common.{
  ℕ, String, ◌≡◌, ◌≢◌, refl, true, false, Option, none, Bool, sym, ◌∙◌, arith, ok, err, ◌==◌,
  string_eq, unwrap_or, if◌then◌else◌, Bool-cases, inl, inr, All, ◌⊎◌, Result, ok-ne-err,
}
use spark_plug.Text.Pieces.{lacks}
use spark_plug.Http.{HeaderMap}
use spark_plug.Database.{Database}
use spark_plug.Error.{Error, database, application_not_found}
use spark_plug.Proxy.Bearer.{extract_bearer_token}
use spark_plug.Proxy.Bearer.Agreement.{proxy_token_iff}
use spark_plug.Proxy.Cache.{Cache, cached, has_token, sender_for}
use spark_plug.Proxy.Cache.Senders.{sender_for_unknown}
use spark_plug.Proxy.Dispatch.{Meanwhile, with_session, send_to, dispatch_request}
use spark_plug.PythonClient.{
  Application, SparkPlugClient, ChannelBuilder, Python, channel_builder, channel, create_session,
}
use spark_plug.PythonClient.Tokens.{Calls, header_map, token_sent, bearer_sent}

dollar-ne : (t : String) → ("$" ++ t) ≢ ""
dollar-ne t e = cons≢nil (sym (cons-append "$" "" t) ∙ e)

if_true : (b : Bool) (x y : String) → b ≡ true → x ≡ (if b then x else y)
if_true b x y e = rw e refl

if_false : (b : Bool) (x y : String) → b ≡ false → y ≡ (if b then x else y)
if_false b x y e = rw e refl

module _ {W : Type 0} (P : Python W) (c : SparkPlugClient) (app : Application) (w : W)
    (port : Option ℕ) where
  session_of :
      (P.urlparse c.url).port ≡ ok port
      → create_session P c app w
        ≡ P.create (channel_builder (P.urlparse c.url) port (P.str app.token)) w
  unfolding create_session channel
  session_of h = ground arith

  filled_sent : P.str app.token ≢ "" → token_sent (P.urlparse c.url) (P.str app.token) ≢ ""
  filled_sent h e = elim (Bool-cases ((P.urlparse c.url).scheme == "https")) [
    | inl t ↦ dollar-ne (P.str app.token) (if_true _ _ _ t ∙ e)
    | inr t ↦ h (if_false _ _ _ t ∙ e)
  ]

  -- Where the host and the token have no semicolon, and the token is not empty, a session is opened
  -- on a channel whose calls the proxy reads a token from: the application's own, unless the URL's
  -- scheme is `https`, and then `$` and it.
  pub session_token :
      (calls : Calls)
      → (P.urlparse c.url).port ≡ ok port
      → lacks 59 (unwrap_or (P.urlparse c.url).hostname "None") ≡ true
      → lacks 59 (P.str app.token) ≡ true
      → P.str app.token ≢ ""
      → (b : ChannelBuilder) × (create_session P c app w ≡ P.create b w)
        × (extract_bearer_token (header_map (calls.metadata_of b))
            ≡ ok (token_sent (P.urlparse c.url) (P.str app.token)))
  session_token calls h host plain filled = (
    channel_builder (P.urlparse c.url) port (P.str app.token),
    session_of h,
    (proxy_token_iff _ (token_sent (P.urlparse c.url) (P.str app.token))).1 (
      bearer_sent calls (P.urlparse c.url) port (P.str app.token) host plain,
      filled_sent filled,
    ),
  )

-- No response: the application is not found, or the query fails.
abbrev pub IsUnserved : Result Error ℕ → Type 0
IsUnserved r = (r ≡ err application_not_found) ⊎ ((x : String) × (r ≡ err (database x)))

refused_at :
    (world : Meanwhile) (token : String) (p : Result Error ℕ × Cache)
    → IsUnserved p.0
    → IsUnserved (send_to world token p).0
unfolding send_to
refused_at world token (ok s, c) (inl e) = absurd (ok-ne-err e)
refused_at world token (ok s, c) (inr (x, e)) = absurd (ok-ne-err e)
refused_at world token (err x, c) h = h

-- A token that no application has, and that no open sender is cached for.
pub record IsUnknown (D : Database) (world : Meanwhile) (db : D.Db) (cache : Cache) (token : String)
    : Type 0 where
  pub absent : All (λ m. has_token token m ≡ false) (D.rows db)
  pub uncached : cached world.now cache token ≡ none

unknown-IsUnserved :
    (D : Database) (world : Meanwhile) (db : D.Db) (headers : HeaderMap) (cache : Cache)
    (token : String)
    → extract_bearer_token headers ≡ ok token
    → IsUnknown D world db cache token
    → IsUnserved (dispatch_request D world db headers cache).0
unfolding dispatch_request with_session
unknown-IsUnserved D world db headers cache token e h = rw e (
    refused_at world token (sender_for D world.now world.later world.during db token cache)
      (sender_for_unknown D world.now world.later world.during db token cache h.absent
        h.uncached).0)

is_https : (s : String) → s ≡ "https" → (s == "https") ≡ true
is_https s e = rw e refl

channel_of :
    {W : Type 0} (P : Python W) (c : SparkPlugClient) (app : Application) (port : Option ℕ)
    → (P.urlparse c.url).port ≡ ok port
    → channel P c app ≡ ok (channel_builder (P.urlparse c.url) port (P.str app.token))
unfolding channel
channel_of P c app port h = rw h refl

-- Where the URL's scheme is `https`, and no application has the token that is `$` and the
-- application's, nor is an open sender cached for it, no call of the session gets a response: its
-- application is not found, or the query fails. The host and the token have no semicolon.
pub https_session-IsUnserved :
    {W : Type 0} (P : Python W) (c : SparkPlugClient) (app : Application) (port : Option ℕ)
    (calls : Calls) (D : Database) (world : Meanwhile) (db : D.Db) (cache : Cache)
    → (P.urlparse c.url).port ≡ ok port
    → (P.urlparse c.url).scheme ≡ "https"
    → lacks 59 (unwrap_or (P.urlparse c.url).hostname "None") ≡ true
    → lacks 59 (P.str app.token) ≡ true
    → IsUnknown D world db cache ("$" ++ P.str app.token)
    → (b : ChannelBuilder) × (channel P c app ≡ ok b)
      × IsUnserved (dispatch_request D world db (header_map (calls.metadata_of b)) cache).0
https_session-IsUnserved P c app port calls D world db cache h scheme host plain unknown =
    let dollar : token_sent (P.urlparse c.url) (P.str app.token) ≡ "$" ++ P.str app.token =
      sym (if_true _ _ _ (is_https (P.urlparse c.url).scheme scheme)) in
    let headers =
      header_map (calls.metadata_of (channel_builder (P.urlparse c.url) port (P.str app.token))) in
    let sent : IsBearer headers ("$" ++ P.str app.token) =
      subst (IsBearer headers) dollar
        (bearer_sent calls (P.urlparse c.url) port (P.str app.token) host plain) in
    (
      channel_builder (P.urlparse c.url) port (P.str app.token),
      channel_of P c app port h,
      unknown-IsUnserved D world db headers cache ("$" ++ P.str app.token)
          ((proxy_token_iff headers ("$" ++ P.str app.token)).1 (sent, dollar-ne (P.str app.token)))
          unknown,
    )
