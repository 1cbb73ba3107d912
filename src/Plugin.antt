-- ===== src/Plugin.antt =====
-- plugin/src/main/scala/org/apache/spark/sql/sparkplug: what runs within a session's Spark driver.
-- `Config` is the state that its threads share; `SparkPlugInterceptor` sees the calls to the
-- driver, `SparkPlugListener` the events of Spark, and its thread the time. Spark, the HTTP client
-- and the clock, in milliseconds since the Unix epoch, are arguments.
pub mod Keeps
pub mod Launched
pub mod Ending
pub mod Registered
pub mod Ended
pub mod Idle
pub mod Timeout
pub mod Prompt
use Prim.Native.String.{◌++◌}
use spark_plug.Common.{
  ℕ, ◌+◌, ◌-◌, ◌*◌, ◌%◌, ◌^◌, ℤ, pos, String, Bool, true, false, not, ◌&&◌, Option, none, some,
  List, [], ◌∷◌, ◌==◌, string_eq, nat_eq, if◌then◌else◌, Result, ok, err, ◌>>=◌, ok_or, le_int,
}
use spark_plug.Text.Show.{show}
use spark_plug.Http.{authorization}
use spark_plug.Server.{as_i64}

pub record Config : Type 0 where
  pub last_active : ℕ
  pub external_shutdown : Bool

pub data Verb : Type 0 where
  post : String → Verb
  delete : Verb

pub record HttpRequest : Type 0 where
  pub uri : String
  pub headers : List (String × String)
  pub verb : Verb

-- The driver: whether `SparkConnectService.stop` was called, whether the thread for the timeout
-- still runs, and the requests that were given to `send`, the last first.
pub record Driver : Type 0 where
  pub config : Config
  pub stopped : Bool
  pub watched : Bool
  pub sent : List HttpRequest

abbrev pub update_last_active : ℕ → Driver → Driver
update_last_active now d = record d { config = record d.config { last_active = now } }

abbrev pub stop : Driver → Driver
stop d = record d { stopped = true }

-- The `Status` with which a call is closed, or that it goes on.
pub data Reply : Type 0 where
  closed_ok cancelled invalid_argument : Reply
  started : Reply

-- `interceptCall`, by the value of the header `X-Spark-Plug`.
unfoldable pub intercept_call : ℕ → Option String → Driver → Reply × Driver
intercept_call now none d = (started, update_last_active now d)
intercept_call now (some message) d =
    if message == "health"
    then (closed_ok, d)
    else if message == "stop"
    then (cancelled, stop (record d { config = record d.config { external_shutdown = true } }))
    else (invalid_argument, d)

-- The fields of a `SparkPlugListener`.
pub record Listener : Type 0 where
  pub callback_addr : String
  pub token : String
  pub idle_timeout : Option ℕ
  pub application_id : String

-- The keys of the configuration, and what the constructor of `SparkPlugListener` reads of it:
-- Spark's configuration, and its reading of a time in seconds, are the first arguments.
abbrev pub spark_plug_callback : String
spark_plug_callback = "spark.plug.callback"

abbrev pub spark_plug_idle_timeout : String
spark_plug_idle_timeout = "spark.plug.idle.timeout"

abbrev pub idle_timeout_of : (String → Result String ℕ) → Option String → Result String (Option ℕ)
idle_timeout_of seconds none = ok none
idle_timeout_of seconds (some time) = do timeout ← seconds time; ok (some timeout)

unfoldable pub listener_of :
    (String → Option String) → (String → Result String ℕ) → String → Result String Listener
listener_of conf seconds application_id = do
  callback_addr ← ok_or (conf spark_plug_callback) "Proxy callback must be provided"
  token ← ok_or (conf "spark.connect.authenticate.token") "spark.connect.authenticate.token"
  idle_timeout ← idle_timeout_of seconds (conf spark_plug_idle_timeout)
  ok (record {
    callback_addr = callback_addr;
    token = token;
    idle_timeout = idle_timeout;
    application_id = application_id;
  })

pub data ListenerEvent : Type 0 where
  connect_service_started : String → ℕ → ListenerEvent
  connect_service_end : ListenerEvent
  other : ListenerEvent

-- What the rest of the world does for one event: whether `URI.create` takes a text, and the status
-- that `send` gets for a request, or that it throws.
pub record World : Type 0 where
  pub uri : String → Bool
  pub send : HttpRequest → Result String ℕ

abbrev pub headers_of : Listener → List (String × String)
headers_of l = (authorization, "Bearer " ++ l.token) ∷ ("Content-type", "application/json") ∷ []

abbrev pub callback_uri : Listener → String
callback_uri l = l.callback_addr ++ "/callback"

abbrev pub connect_uri : String → ℕ → String
connect_uri host_address binding_port = host_address ++ (":" ++ show binding_port)

unfoldable pub callback_body : String → String → String
callback_body address app_id =
    "{\"address\": \"" ++ (address ++ ("\", \"application_id\": \"" ++ (app_id ++ "\"}")))

unfoldable pub started_request : Listener → String → HttpRequest
unfolding callback_body
started_request l address = record {
  uri = callback_uri l;
  headers = headers_of l;
  verb = post (callback_body address l.application_id);
}

unfoldable pub end_request : Listener → HttpRequest
end_request l = record { uri = callback_uri l; headers = headers_of l; verb = delete }

-- A request is sent.
abbrev pub sent_by : HttpRequest → Driver → Driver
sent_by r d = record d { sent = r ∷ d.sent }

-- What the listener does with the outcome of its POST; a DELETE that fails is only logged.
unfoldable pub after_post : Result String ℕ → Driver → Driver
after_post (ok status) d = if status == 200 then d else stop d
after_post (err e) d = stop d

-- The match of `onOtherEvent`. `URI.create` stands outside its `try`: where it throws, no request
-- is sent.
unfoldable pub matched : World → Listener → ListenerEvent → Driver → Driver
unfolding after_post started_request end_request
matched world l (connect_service_started host_address binding_port) d =
    let request = started_request l (connect_uri host_address binding_port) in
    if world.uri request.uri then after_post (world.send request) (sent_by request d) else d
matched world l connect_service_end d =
    if not d.config.external_shutdown && world.uri (callback_uri l)
    then sent_by (end_request l) d
    else d
matched world l other d = d

-- `onOtherEvent`
unfoldable pub on_other_event : World → Listener → ℕ → ListenerEvent → Driver → Driver
unfolding matched
on_other_event world l now event d = matched world l event (update_last_active now d)

-- `System.currentTimeMillis() - timeout * 1000`, of the type `Long`.
unfoldable pub idle_limit : ℕ → ℕ → ℤ
unfolding as_i64
idle_limit now timeout = as_i64 ((now + (2 ^ 64 - (timeout * 1000) % 2 ^ 64)) % 2 ^ 64)

abbrev pub is_idle : ℕ → ℕ → ℕ → Bool
is_idle last_active now timeout = not (le_int (idle_limit now timeout) (pos last_active))

-- One round of the loop of `timeoutThread`; `active` is whether Spark lists active executions.
unfoldable pub timeout_round : ℕ → ℕ → Bool → Driver → Driver
unfolding idle_limit
timeout_round timeout now active d =
    if active
    then update_last_active now d
    else if is_idle d.config.last_active now timeout
    then stop (record d { watched = false })
    else d

-- What happens in the driver, in any order.
pub data Event : Type 0 where
  call : ℕ → Option String → Event
  listened : World → ℕ → ListenerEvent → Event
  round : ℕ → Bool → Event

abbrev pub watch : Option ℕ → ℕ → Bool → Driver → Driver
watch none now active d = d
watch (some timeout) now active d = if d.watched then timeout_round timeout now active d else d

unfoldable pub step : Listener → Driver → Event → Driver
unfolding intercept_call on_other_event timeout_round
step l d (call now message) = (intercept_call now message d).1
step l d (listened world now event) = on_other_event world l now event d
step l d (round now active) = watch l.idle_timeout now active d

unfoldable pub run : Listener → Driver → List Event → Driver
unfolding step
run l d [] = d
run l d (e ∷ es) = run l (step l d e) es
