-- ===== src/Tests/PythonClient.antt =====
-- Runs of the Python client, at the proxy of the runs.
use Prim.Native.String.{◌++◌}
use spark_plug.Common.{
  pos, String, ◌≡◌, ◌≢◌, refl, true, none, some, List, [], ◌∷◌, ok, err, ap, ◌∙◌, string_eq, eq_iff,
}
use mathlib.Core.Bool.{false≢true}
use spark_plug.Map.{get}
use spark_plug.Text.{split, drop}
use spark_plug.Text.Laws.{drop-append}
use spark_plug.Text.Pieces.{lacks}
use spark_plug.Text.Show.{show_int}
use spark_plug.Http.{authorization}
use spark_plug.Json.{Json, null, number, text}
use spark_plug.Database.Memory.{memory}
use spark_plug.Proxy.Bearer.{extract_bearer_token}
use spark_plug.Proxy.Cache.{cached}
use spark_plug.Proxy.Dispatch.{dispatch_request}
use spark_plug.Routes.Api.{ApplicationInfo}
use spark_plug.Client.{CreateApplication}
use spark_plug.PythonClient.{
  Application, SparkPlugClient, ChannelBuilder, Python, channel, create_session, intercept,
}
use spark_plug.PythonClient.Agreement.{IsAsked, IsDescribed, messages_read}
use spark_plug.PythonClient.Tokens.{Calls, header_map}
use spark_plug.PythonClient.Sessions.{
  IsUnknown, IsUnserved, session_token, https_session-IsUnserved,
}
use spark_plug.Tests.Proxy.{meanwhile}
use spark_plug.Tests.Data.{cache, rows}

abbrev str : Json → String
str (text s) = s
str (number n) = show_int n
str j = "None"

-- A network where nothing is answered, and where URLs have this scheme.
abbrev python : String → Python (Unit {0})
python scheme = record {
  post = λ headers url body w. (err "unreachable", w);
  get = λ headers url w. (err "unreachable", w);
  delete = λ headers url w. (err "unreachable", w);
  raise_for_status = λ status. ok tt;
  urlparse = λ url. record { scheme = scheme; hostname = some "spark"; port = ok (some 8443) };
  str = str;
  create = λ builder w. (ok tt, w);
}

-- Calls without metadata of their own, whose credentials are the third piece of the text.
abbrev of_pieces : List String → List (String × String)
of_pieces (base ∷ ssl ∷ token ∷ []) = (authorization, "Bearer " ++ drop 6 token) ∷ []
of_pieces pieces = []

abbrev metadata_of : ChannelBuilder → List (String × String)
metadata_of b = elim b.interceptor [
  | some token ↦ intercept token none
  | none ↦ of_pieces (split 59 b.url)
]

credentials_law :
    (line base token : String)
    → split 59 line ≡ base ∷ "use_ssl=true" ∷ ("token=" ++ token) ∷ []
    → get (metadata_of (record { url = line; interceptor = none })) authorization
      ≡ some ("Bearer " ++ token)
unfolding get
credentials_law line base token h =
    ap (λ ps. get (of_pieces ps) authorization) h
    ∙ ap (λ t. some ("Bearer " ++ t)) (drop-append "token=" token)

abbrev calls : Calls
calls = record {
  metadata_of = metadata_of;
  own = none;
  plain = unfold get in refl;
  credentials = credentials_law;
  intercepted = λ line token. refl;
}

abbrev client : SparkPlugClient
client = record { url = "https://spark:8443"; session = [] }

abbrev application : Application
application = record { id = number (pos 1); token = text "t1"; name = null; log_url = null }

abbrev first_token : String
first_token = "t1"

filled : first_token ≢ ""
filled e = false≢true ((eq_iff first_token "").1 e)

session_token_example :
    (b : ChannelBuilder) × (create_session (python "http") client application tt ≡ (ok tt, tt))
    × (extract_bearer_token (header_map (calls.metadata_of b)) ≡ ok "t1")
unfolding lacks
session_token_example =
    session_token (python "http") client application tt (some 8443) calls refl refl refl filled

-- No row has the token `$t1`.
unknown : IsUnknown memory meanwhile rows cache "$t1"
unfolding cached get
unknown = record { absent = (refl, (refl, tt)); uncached = refl }

https_session-IsUnserved_example :
    (b : ChannelBuilder) × (channel (python "https") client application ≡ ok b)
    × IsUnserved (dispatch_request memory meanwhile rows (header_map (calls.metadata_of b)) cache).0
unfolding lacks
https_session-IsUnserved_example =
    https_session-IsUnserved (python "https") client application (some 8443) calls memory meanwhile
      rows cache refl refl refl refl unknown

abbrev asked : CreateApplication
asked = record { version = some "v4"; config = ("spark.a", "1") ∷ [] }

abbrev described : ApplicationInfo
described = record {
  id = pos 1;
  name = some "job";
  token = "t1";
  state = "RUNNING";
  active = true;
  ui_url = none;
  log_url = some "log";
}

messages_read_example :
    IsAsked (some "job") none none (some ("numpy" ∷ [])) asked × IsDescribed described
messages_read_example = messages_read (some "job") none none (some ("numpy" ∷ [])) asked described
