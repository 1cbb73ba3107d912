-- ===== src/Client/Connection.antt =====
-- The connection text that `create_session` of clients/rust/src/lib.rs makes.
use Prim.Native.String.{◌++◌, [], ◌∷◌}
use text.Mathlib.TextLemmas.{append-nil, cons-append}
use spark_plug.Common.{
  ℕ, String, ◌≡◌, refl, Bool, true, false, Option, none, some, List, [], ◌∷◌, arith, ok, ap, ◌∙◌,
  if◌then◌else◌,
}
use spark_plug.Text.{split, push_head, starts_with}
use spark_plug.Text.Pieces.{lacks, push_text, split-append, lacks-append, lacks-show}
use spark_plug.Text.Show.{show}
use spark_plug.Client.{
  SparkPlugClient, Application, Network, Url, port_str, use_ssl, connection_to, connection_of,
  connection, create_session,
}

-- The parameters of a connection, as its text lists them.
abbrev ssl_parameter : Bool → List String
ssl_parameter true = "use_ssl=true" ∷ []
ssl_parameter false = []

abbrev pub parameters : SparkPlugClient → Application → List String
parameters c app = ("token=" ++ app.token) ∷ ssl_parameter (starts_with c.base_url "https")

lacks-port_str : (port : Option ℕ) → lacks 59 (port_str port) ≡ true
lacks-port_str none = unfold lacks in refl
lacks-port_str (some p) = lacks-append 59 ":" (show p) (unfold lacks in refl) (lacks-show p)

split-ssl : (b : Bool) → split 59 (if b then ";use_ssl=true" else "") ≡ "" ∷ ssl_parameter b
unfolding split
split-ssl true = refl
split-ssl false = refl

split-separator : (t : String) → split 59 ("/;token=" ++ t) ≡ "/" ∷ split 59 ("token=" ++ t)
unfolding split push_head
split-separator t = rw (cons-append "/" ";token=" t, cons-append ";" "token=" t) refl

split-parameters :
    (c : SparkPlugClient) (app : Application)
    → lacks 59 app.token ≡ true
    → split 59 ("token=" ++ (app.token ++ use_ssl c)) ≡ parameters c app
split-parameters c app h =
    split-append 59 "token=" (app.token ++ use_ssl c) (unfold lacks in refl)
    ∙ ap (push_text "token=") (
        split-append 59 app.token (use_ssl c) h
        ∙ ap (push_text app.token) (split-ssl (starts_with c.base_url "https")))
    ∙ (unfold push_text in rw (append-nil app.token) refl)

connection_to-split :
    (c : SparkPlugClient) (app : Application) (host : String) (port : Option ℕ)
    → lacks 59 app.token ≡ true
    → lacks 59 host ≡ true
    → split 59 (connection_to c app host port)
      ≡ ("sc://" ++ (host ++ (port_str port ++ "/"))) ∷ parameters c app
unfolding connection_to
connection_to-split c app host port h k =
    let tail = "token=" ++ (app.token ++ use_ssl c) in
    let end = "/;token=" ++ (app.token ++ use_ssl c) in
    split-append 59 "sc://" (host ++ (port_str port ++ end)) (unfold lacks in refl)
    ∙ ap (push_text "sc://") (
        split-append 59 host (port_str port ++ end) k
        ∙ ap (push_text host) (
            split-append 59 (port_str port) end (lacks-port_str port)
            ∙ ap (push_text (port_str port)) (
                split-separator (app.token ++ use_ssl c)
                ∙ ap (λ ps. "/" ∷ ps) (split-parameters c app h))))
    ∙ (unfold push_text in refl)

connection-of_parsed :
    {W : Type 0} (N : Network W) (c : SparkPlugClient) (app : Application) (u : Url) (host : String)
    → N.parse c.base_url ≡ ok u
    → u.host_str ≡ some host
    → connection N c app ≡ ok (connection_to c app host u.port)
unfolding connection connection_of
connection-of_parsed N c app u host p q = rw p (rw q refl)

session-of_connection :
    {W : Type 0} (N : Network W) (c : SparkPlugClient) (app : Application) (w : W) (text : String)
    → connection N c app ≡ ok text
    → create_session N c app w ≡ N.get_or_create text w
unfolding create_session
session-of_connection N c app w text e = ground arith

-- Where the client's URL has a host, and neither it nor the token has a semicolon, a session is
-- opened with a text that, split at its semicolons, names the host and its port, and has as its
-- parameters exactly the application's token and, where the URL starts with `https`, the use of SSL.
pub create_session-connects :
    {W : Type 0} (N : Network W) (c : SparkPlugClient) (app : Application) (w : W) (u : Url)
    (host : String)
    → N.parse c.base_url ≡ ok u
    → u.host_str ≡ some host
    → lacks 59 host ≡ true
    → lacks 59 app.token ≡ true
    → (text : String) × (create_session N c app w ≡ N.get_or_create text w)
      × (split 59 text ≡ ("sc://" ++ (host ++ (port_str u.port ++ "/"))) ∷ parameters c app)
create_session-connects N c app w u host p q k h = (
  connection_to c app host u.port,
  session-of_connection N c app w (connection_to c app host u.port)
      (connection-of_parsed N c app u host p q),
  connection_to-split c app host u.port h k,
)
