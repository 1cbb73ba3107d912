-- ===== src/Proxy/Dispatch/Source.antt =====
-- Where the response to a proxied request comes from (`dispatch_request` of server/src/proxy.rs).
use spark_plug.Common.{
  ℕ, String, ◌≡◌, ◌≢◌, refl, Option, none, some, arith, Result, ok, err, Result-cases, Bool-cases,
  inl, inr, ap, sym, ◌∙◌, ok-ne-err,
}
use spark_plug.Http.{HeaderMap}
use spark_plug.Text.Bearer.{IsBearer}
use spark_plug.Database.{Database}
use spark_plug.Error.{Error}
use spark_plug.Proxy.Bearer.{extract_bearer_token}
use spark_plug.Proxy.Bearer.Agreement.{proxy_token_iff}
use spark_plug.Proxy.Cache.{Cache, sender_for}
use spark_plug.Proxy.Cache.Isolation.{empty, Reach}
use spark_plug.Proxy.Cache.Senders.{Serves, sender_for-Serves}
use spark_plug.Proxy.Dispatch.{Meanwhile, received, send_to, with_session, dispatch_request}

received_ok : (o : Option (Result Error ℕ)) (r : ℕ) → received o ≡ ok r → o ≡ some (ok r)
unfolding received
received_ok none r e = cc
received_ok (some x) r e = ap some e

send_to_ok :
    (world : Meanwhile) (token : String) (sender : ℕ) (c : Cache) (r : ℕ)
    → (send_to world token (ok sender, c)).0 ≡ ok r
    → (world.response sender ≡ some (ok r)) × ((send_to world token (ok sender, c)).1 ≡ c)
send_to_ok world token sender c r e = elim (Bool-cases (world.sending sender)) [
  | inl t ↦ absurd (unfold send_to in ground arith)
  | inr t ↦ (
    received_ok (world.response sender) r (unfold send_to in ground arith),
    unfold send_to in ground arith,
  )
]

module _ (D : Database) (world : Meanwhile) (db : D.Db) (headers : HeaderMap) (c : Cache) where
  -- The dispatcher that gave the response is the one of the request's own token.
  pub record IsOwn (r : ℕ) (after : Cache) : Type 0 where
    pub token : String
    pub sender : ℕ
    pub bearer : IsBearer headers token
    pub filled : token ≢ ""
    pub serves : Serves token sender after
    pub response : world.response sender ≡ some (ok r)

  dispatch_of :
      (t : Result Error String)
      → extract_bearer_token headers ≡ t
      → dispatch_request D world db headers c ≡ with_session D world db t c
  dispatch_of t e = unfold dispatch_request in ap (λ t. with_session D world db t c) e

  session_of :
      (token : String) (p : Result Error ℕ × Cache)
      → sender_for D world.now world.later world.during db token c ≡ p
      → with_session D world db (ok token) c ≡ send_to world token p
  session_of token p e = unfold with_session in ap (send_to world token) e

  abbrev offer : String → Result Error ℕ × Cache
  offer token = sender_for D world.now world.later world.during db token c

  pair_of :
      (token : String) (s : ℕ) → (offer token).0 ≡ ok s → offer token ≡ (ok s, (offer token).1)
  pair_of token s g = ap (λ x. (x, (offer token).1)) g

  refused :
      (x : Error)
      → extract_bearer_token headers ≡ err x
      → (dispatch_request D world db headers c).0 ≡ err x
  refused x f = rw (dispatch_of (err x) f) (unfold with_session in refl)

  unserved :
      (token : String) (x : Error)
      → extract_bearer_token headers ≡ ok token
      → (offer token).0 ≡ err x
      → (dispatch_request D world db headers c).0 ≡ err x
  unserved token x f g =
      rw
        (dispatch_of (ok token) f
          ∙ session_of token (err x, (offer token).1) (ap (λ y. (y, (offer token).1)) g))
        (unfold send_to in refl)

  -- A request that gets a response, whatever the other tasks do to the cache meanwhile, gets it from
  -- the dispatcher of the token that its own header reads.
  pub dispatch_request-IsOwn :
      (r : ℕ)
      → Reach empty c
      → Reach c (world.during c)
      → (dispatch_request D world db headers c).0 ≡ ok r
      → IsOwn r (dispatch_request D world db headers c).1
  dispatch_request-IsOwn r h h' e = elim (Result-cases (extract_bearer_token headers)) [
    | inr (x, f) ↦ absurd (ok-ne-err (sym e ∙ refused x f))
    | inl (token, f) ↦ elim (Result-cases (offer token).0) [
      | inr (x, g) ↦ absurd (ok-ne-err (sym e ∙ unserved token x f g))
      | inl (s, g) ↦
          let t =
            dispatch_of (ok token) f
            ∙ session_of token (ok s, (offer token).1) (pair_of token s g) in
          let (bearer, filled) = (proxy_token_iff headers token).0 f in
          let (response, same) =
            send_to_ok world token s (offer token).1 r (ap (λ p. p.0) (sym t) ∙ e) in
          record {
            token = token;
            sender = s;
            bearer = bearer;
            filled = filled;
            serves =
                rw (ap (λ p. p.1) t ∙ same)
                  (sender_for-Serves D world.now world.later world.during db token c s h h' g);
            response = response;
          }
    ]
  ]
