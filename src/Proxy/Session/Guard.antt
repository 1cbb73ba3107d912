-- ===== src/Proxy/Session/Guard.antt =====
-- The dispatcher of a session forwards only requests that carry the session's own token
-- (`upstream_connection` of server/src/proxy.rs).
use mathlib.Core.Path.{subst}
use spark_plug.Common.{
  String, ◌≡◌, ◌≢◌, refl, Option, none, some, List, [], ◌∷◌, arith, string_eq, eq_iff, Result, ok,
  err, inl, inr, Result-cases, ap, sym, ◌∙◌,
}
use spark_plug.Text.Bearer.{IsBearer}
use spark_plug.Error.{Error}
use spark_plug.Proxy.Bearer.{extract_bearer_token}
use spark_plug.Proxy.Bearer.Agreement.{proxy_token_iff}
use spark_plug.Proxy.Session.{
  Request, Answers, Connection, Outcome, answered, sent, check_token, upstream_uri, send_on,
  with_token, dispatch, upstream_connection,
}

-- Where a request may be sent: to the connection that the dispatcher has, or, where it has none,
-- to the one that it finds.
abbrev pub IsUsable : Option Connection → Answers → Connection → Type 0
IsUsable (some connection) world c = c ≡ connection
IsUsable none world c = world.resolved ≡ ok c

-- A request that is sent has the session's token, and is sent to a usable connection under the URI
-- made of its address and the request's own path.
pub record IsSent (token : String) (upstream : Option Connection) (req : Request) (world : Answers)
    (c : Connection) (uri : String) : Type 0 where
  pub bearer : IsBearer req.headers token
  pub filled : token ≢ ""
  pub usable : IsUsable upstream world c
  pub target : uri ≡ upstream_uri c req

check_token-none :
    (token : String) (r : Result Error String) → check_token token r ≡ none → r ≡ ok token
check_token-none token (ok t) e = ground (arith, eq_iff t token)
check_token-none token (err x) e = cc

send_on_sent :
    (connection : Connection) (req : Request) (world : Answers) (c : Connection) (uri : String)
    → (send_on connection req world).0 ≡ sent c uri
    → (c ≡ connection)
      × (uri ≡ upstream_uri connection req)
      × ((send_on connection req world).1 ≡ some connection)
unfolding send_on
send_on_sent connection req world c uri e = ground arith

IsUsable-with_token :
    (upstream : Option Connection) (req : Request) (world : Answers) (c : Connection) (uri : String)
    → (with_token none upstream req world).0 ≡ sent c uri
    → IsUsable upstream world c × (uri ≡ upstream_uri c req)
unfolding with_token
IsUsable-with_token (some connection) req world c uri e =
    let (same, target, _) = send_on_sent connection req world c uri e in
    (same, target ∙ ap (λ d. upstream_uri d req) (sym same))
IsUsable-with_token none req world c uri e = elim (Result-cases world.resolved) [
  | inl (d, r) ↦
      let (same, target, _) = send_on_sent d req world c uri (rw (r, with_token) at e) in
      (r ∙ ap ok (sym same), target ∙ ap (λ d. upstream_uri d req) (sym same))
  | inr (x, r) ↦ absurd (ground arith)
]

checked :
    (o : Option Error) (upstream : Option Connection) (req : Request) (world : Answers)
    (c : Connection) (uri : String)
    → (with_token o upstream req world).0 ≡ sent c uri
    → o ≡ none
checked none upstream req world c uri e = refl
checked (some x) upstream req world c uri e = unfold with_token in cc e

dispatch_sent :
    (token : String) (upstream : Option Connection) (req : Request) (world : Answers)
    (c : Connection) (uri : String)
    → (dispatch token upstream req world).0 ≡ sent c uri
    → IsSent token upstream req world c uri
dispatch_sent token upstream req world c uri e =
    let check = check_token token (extract_bearer_token req.headers) in
    let passed : check_token token (extract_bearer_token req.headers) ≡ none =
      checked check upstream req world c uri (unfold dispatch in e) in
    let (bearer, filled) =
      (proxy_token_iff req.headers token).0 (check_token-none token _ passed) in
    let (usable, target) = IsUsable-with_token upstream req world c uri (
      subst (λ o. (with_token o upstream req world).0 ≡ sent c uri) passed
        (unfold dispatch in e)) in
    record { bearer = bearer; filled = filled; usable = usable; target = target }

-- What is known of the outcome of each request, along the connections that the dispatcher has.
abbrev pub IsGuardedOutcome : String → Option Connection → Request → Answers → Outcome → Type 0
IsGuardedOutcome token upstream req world (answered e) = Unit
IsGuardedOutcome token upstream req world (sent c uri) = IsSent token upstream req world c uri

abbrev pub AreGuarded :
    String → Option Connection → List (Request × Answers) → List Outcome → Type 0
AreGuarded token upstream [] [] = Unit
AreGuarded token upstream [] (o ∷ os) = ⊥
AreGuarded token upstream (r ∷ rs) [] = ⊥
AreGuarded token upstream ((req, world) ∷ rs) (o ∷ os) =
    IsGuardedOutcome token upstream req world o
    × AreGuarded token (dispatch token upstream req world).1 rs os

outcome-IsGuarded :
    (token : String) (upstream : Option Connection) (req : Request) (world : Answers) (o : Outcome)
    → (dispatch token upstream req world).0 ≡ o
    → IsGuardedOutcome token upstream req world o
outcome-IsGuarded token upstream req world (answered x) e = tt
outcome-IsGuarded token upstream req world (sent c uri) e =
    dispatch_sent token upstream req world c uri e

-- Over any requests, each gets exactly one outcome, and is forwarded only if its header reads
-- `Bearer` and the session's token, to the connection that the dispatcher then has or finds.
pub upstream_connection-AreGuarded :
    (token : String) (upstream : Option Connection) (requests : List (Request × Answers))
    → AreGuarded token upstream requests (upstream_connection token upstream requests)
unfolding upstream_connection
upstream_connection-AreGuarded token upstream [] = tt
upstream_connection-AreGuarded token upstream ((req, world) ∷ rs) = (
  outcome-IsGuarded token upstream req world _ refl,
  upstream_connection-AreGuarded token (dispatch token upstream req world).1 rs,
)
