-- ===== src/Client.antt =====
-- clients/rust/src/lib.rs: the client of the API. Its crates `reqwest`, `url` and `spark_connect`,
-- and the network, are the parameter `Network`, over a state of the rest of the world.
pub mod Stop
pub mod Connection
pub mod Messages
use Prim.Native.String.{◌++◌}
use spark_plug.Common.{
  ℕ, ℤ, String, Bool, Option, none, some, if◌then◌else◌, Result, ok, err, ◌>>=◌, ok_or,
}
use spark_plug.Map.{Map}
use spark_plug.Text.{starts_with}
use spark_plug.Text.Show.{show, show_int}

pub record Application : Type 0 where
  pub id : ℤ
  pub token : String
  pub active : Bool
  pub log_url : Option String

pub record CreateApplication : Type 0 where
  pub version : Option String
  pub config : Map String

-- The parts of a parsed `Url` that are read.
pub record Url : Type 0 where
  pub host_str : Option String
  pub port : Option ℕ

-- A response: its status, and what `.json::<Application>()` makes of its body.
pub record Reply : Type 0 where
  pub status : ℕ
  pub json : Result String Application

pub record Network (W : Type 0) : Type 0 where
  -- `.post(url).json(body).send()` and `.delete(url).send()`
  pub post : String → CreateApplication → W → Result String Reply × W
  pub delete : String → W → Result String Reply × W
  pub error_for_status : Reply → Result String (Unit {0})
  pub parse : String → Result String Url
  -- `SparkSessionBuilder::remote(connection).get_or_create()`, in its blocking task
  pub get_or_create : String → W → Result String (Unit {0}) × W

-- Its `Client` is part of the network.
pub record SparkPlugClient : Type 0 where
  pub base_url : String

-- `new`, and `from_client` with a client of the caller's: `ToString` of the URL is its text.
abbrev pub new : String → SparkPlugClient
new url = record { base_url = url }

unfoldable pub url : SparkPlugClient → String → String
url c path = c.base_url ++ path

abbrev pub port_str : Option ℕ → String
port_str none = ""
port_str (some p) = ":" ++ show p

abbrev pub use_ssl : SparkPlugClient → String
use_ssl c = if starts_with c.base_url "https" then ";use_ssl=true" else ""

-- `connection`, with the host that `host_str` has.
unfoldable pub connection_to : SparkPlugClient → Application → String → Option ℕ → String
connection_to c app host port =
    "sc://" ++ (host ++ (port_str port ++ ("/;token=" ++ (app.token ++ use_ssl c))))

-- `unwrap` panics where there is no host.
unfoldable pub connection_of : SparkPlugClient → Application → Url → Result String String
unfolding connection_to
connection_of c app u = do
  host ← ok_or u.host_str "called `Option::unwrap()` on a `None` value"
  ok (connection_to c app host u.port)

module _ {W : Type 0} (N : Network W) where
  unfoldable pub create_application :
      SparkPlugClient → Option String → Map String → W → Result String Application × W
  unfolding url
  create_application c version config w =
      let (sent, w') = N.post (url c "/apps") (record { version = version; config = config }) w in
      ((do reply ← sent; reply.json), w')

  unfoldable pub connection : SparkPlugClient → Application → Result String String
  unfolding connection_of
  connection c app = do parsed ← N.parse c.base_url; connection_of c app parsed

  unfoldable pub create_session : SparkPlugClient → Application → W → Result String (Unit {0}) × W
  unfolding connection
  create_session c app w = elim (connection c app) [
    | err e ↦ (err e, w)
    | ok text ↦ N.get_or_create text w
  ]

  unfoldable pub stop_application : SparkPlugClient → ℤ → W → Result String (Unit {0}) × W
  unfolding url
  stop_application c app_id w =
      let (sent, w') = N.delete (url c ("/apps/" ++ show_int app_id)) w in
      ((do reply ← sent; N.error_for_status reply), w')
