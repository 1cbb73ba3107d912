-- ===== src/PythonClient.antt =====
-- clients/python/spark_plug_client/__init__.py: the Python client of the API. `requests`, `urllib`,
-- `grpc`, PySpark and Python's `str` are the parameter `Python`, over a state of the rest of the
-- world; an exception is an error with its text.
pub mod Agreement
pub mod Tokens
pub mod Sessions
use Prim.Native.String.{◌++◌}
use spark_plug.Common.{
  ℕ, String, Option, none, some, List, [], ◌∷◌, ◌==◌, string_eq, if◌then◌else◌, unwrap_or, Result,
  ok, err, ◌>>=◌, ok_or,
}
use spark_plug.Common.{◌++◌ as ◌followed_by◌}
use spark_plug.Map.{Map, get, insert}
use spark_plug.Text.Show.{show}
use spark_plug.Http.{authorization}
use spark_plug.Json.{Json, null, text, texts, object}

-- The fields hold what the JSON has, whatever the annotations say.
pub record Application : Type 0 where
  pub id : Json
  pub token : Json
  pub name : Json
  pub log_url : Json

-- `data[key]` and `data.get(key)`
abbrev pub item : Map Json → String → Result String Json
item fields key = ok_or (get fields key) ("KeyError: " ++ key)

unfoldable pub from_dict : Map Json → Result String Application
from_dict fields = do
  id ← item fields "id"
  token ← item fields "token"
  ok (record {
    id = id;
    token = token;
    name = unwrap_or (get fields "name") null;
    log_url = unwrap_or (get fields "log_url") null;
  })

-- What `response.json()` gives: an object, or a list of them.
pub data Body : Type 0 where
  one : Map Json → Body
  many : List (Map Json) → Body

pub record Response : Type 0 where
  pub status : ℕ
  pub json : Result String Body

pub record ParsedUrl : Type 0 where
  pub scheme : String
  pub hostname : Option String
  pub port : Result String (Option ℕ)

-- A `DefaultChannelBuilder`: its text, and the token of the interceptor that is added.
pub record ChannelBuilder : Type 0 where
  pub url : String
  pub interceptor : Option String

pub record Python (W : Type 0) : Type 0 where
  -- the requests of a session with these headers
  pub post : Map String → String → Map Json → W → Result String Response × W
  pub get : Map String → String → W → Result String Response × W
  pub delete : Map String → String → W → Result String Response × W
  pub raise_for_status : ℕ → Result String (Unit {0})
  pub urlparse : String → ParsedUrl
  pub str : Json → String
  -- `SparkSession.Builder().channelBuilder(builder).create()`
  pub create : ChannelBuilder → W → Result String (Unit {0}) × W

-- `session` is the headers of the `requests.Session`.
pub record SparkPlugClient : Type 0 where
  pub url : String
  pub session : Map String

-- `__init__`; the first argument is the headers of a new `Session()`.
unfoldable pub init : Map String → String → Option (Map String) → SparkPlugClient
init fresh url session = record {
  url = url;
  session = insert (unwrap_or session fresh) "Content-type" "application/json";
}

-- `if value is not None: params[key] = value`
abbrev pub set_if : {A : Type 0} → (A → Json) → String → Option A → Map Json → Map Json
set_if f key none params = params
set_if f key (some value) params = insert params key (f value)

unfoldable pub create_params :
    Option String → Option String → Option (Map String) → Option (List String) → Map Json
create_params name version config python_packages =
    set_if texts "python_packages" python_packages
      (set_if object "config" config (set_if text "version" version (set_if text "name" name [])))

abbrev pub from_body : Body → Result String Application
from_body (one fields) = from_dict fields
from_body (many all) = err "TypeError: list indices must be integers or slices, not str"

abbrev pub from_all : List (Map Json) → Result String (List Application)
from_all [] = ok []
from_all (fields ∷ all) = do app ← from_dict fields; apps ← from_all all; ok (app ∷ apps)

abbrev pub from_list : Body → Result String (List Application)
from_list (one []) = ok []
from_list (one (field ∷ fields)) = err "TypeError: string indices must be integers, not 'str'"
from_list (many all) = from_all all

-- The channel of `create_session`.
abbrev pub port_opt : Option ℕ → String
port_opt none = ""
port_opt (some p) = ":" ++ show p

abbrev pub base_url : ParsedUrl → Option ℕ → String
base_url parsed port = "sc://" ++ (unwrap_or parsed.hostname "None" ++ port_opt port)

unfoldable pub channel_builder : ParsedUrl → Option ℕ → String → ChannelBuilder
channel_builder parsed port token =
    if parsed.scheme == "https"
    then record {
      url = base_url parsed port ++ ("/;use_ssl=true;token=$" ++ token);
      interceptor = none;
    }
    else record { url = base_url parsed port; interceptor = some token }

-- `TokenInterceptor._intercept`: the metadata of the call that goes on.
unfoldable pub intercept : String → Option (List (String × String)) → List (String × String)
intercept token metadata =
    unwrap_or metadata [] followed_by ((authorization, "Bearer " ++ token) ∷ [])

module _ {W : Type 0} (P : Python W) where
  unfoldable pub create_application :
      SparkPlugClient
      → Option String
      → Option String
      → Option (Map String)
      → Option (List String)
      → W
      → Result String Application × W
  unfolding create_params from_dict
  create_application c name version config python_packages w =
      let params = create_params name version config python_packages in
      let (sent, w') = P.post c.session (c.url ++ "/apps") params w in
      (
        (do
          response ← sent
          raised ← P.raise_for_status response.status
          body ← response.json
          from_body body),
        w',
      )

  unfoldable pub list_applications : SparkPlugClient → W → Result String (List Application) × W
  unfolding from_dict
  list_applications c w =
      let (sent, w') = P.get c.session (c.url ++ "/apps") w in
      (
        (do
          response ← sent
          raised ← P.raise_for_status response.status
          body ← response.json
          from_list body),
        w',
      )

  unfoldable pub channel : SparkPlugClient → Application → Result String ChannelBuilder
  unfolding channel_builder
  channel c app = do
    port ← (P.urlparse c.url).port
    ok (channel_builder (P.urlparse c.url) port (P.str app.token))

  unfoldable pub create_session : SparkPlugClient → Application → W → Result String (Unit {0}) × W
  unfolding channel
  create_session c app w = elim (channel c app) [
    | err e ↦ (err e, w)
    | ok builder ↦ P.create builder w
  ]

  unfoldable pub stop_application : SparkPlugClient → Application → W → Result String (Unit {0}) × W
  stop_application c app w =
      let (sent, w') = P.delete c.session (c.url ++ ("/apps/" ++ P.str app.id)) w in
      ((do response ← sent; P.raise_for_status response.status), w')
