-- ===== src/Tests/Plugin.antt =====
-- Runs of a session's driver, against the server of the runs.
use spark_plug.Common.{
  pos, Result, err, ℕ, ◌+◌, ◌*◌, ◌<◌, String, ◌≡◌, refl, true, false, none, some, List, [], ◌∷◌, ok,
  err, All, arith, if◌then◌else◌, ◌==◌, string_eq, inl, inr,
}
use spark_plug.Map.{Map, get}
use spark_plug.Launcher.Conf.{submit_conf}
use spark_plug.Plugin.Launched.{launched_listener}
use spark_plug.Text.Show.{show}
use spark_plug.Text.{split_once}
use spark_plug.Application.{running, finished, Model}
use spark_plug.Database.Memory.{memory}
use spark_plug.Auth.{token_authorize}
use spark_plug.Proxy.Upstream.{resolve_upstream_address}
use spark_plug.Routes.{app_callback}
use spark_plug.Routes.Api.{World}
use spark_plug.Router.{Axum, callback, get_router, routed, callback_api}
use spark_plug.Plugin.{
  Driver, Listener, other, Event, call, listened, round, listener_of, intercept_call, timeout_round,
  callback_body, started_request, after_post, matched, on_other_event, idle_limit, step, run,
}
use spark_plug.Plugin.{World as Outside}
use spark_plug.Plugin.Ended.{request as end_call}
use spark_plug.Plugin.Registered.{
  request, IsSent, answered, IsServed, IsRegistered, started-IsRegistered,
}
use spark_plug.Plugin.Timeout.{is_activity, time_of, idle_stop_justified}
use spark_plug.Plugin.Prompt.{IsStopped, idle_stop_prompt}
use spark_plug.Tests.Data.{world, row, version, spark_launcher}
use spark_plug.Tests.Router.{state, methods}

-- The driver of the second row, whose session may be idle for a minute.
abbrev listener : Listener
listener = record {
  callback_addr = "http://10.0.0.9:8100";
  token = "t2";
  idle_timeout = some 60;
  application_id = "app-2";
}

abbrev driver : Driver
driver = record {
  config = record { last_active = 1000; external_shutdown = false };
  stopped = false;
  watched = true;
  sent = [];
}

abbrev accepting : Outside
accepting = record { uri = λ text. true; send = λ r. ok 200 }

-- A call of a client, a health check and the server's call to stop.
abbrev history : List Event
history = call 2000 none ∷ call 2500 (some "health") ∷ call 3000 (some "stop") ∷ []

-- The session is stopped a minute after its last call.
abbrev idle_history : List Event
idle_history = call 2000 none ∷ round 30000 true ∷ listened accepting 31000 other ∷ []

idle_stop_justified_example :
    (false ≡ false) × All (λ e. is_activity e ≡ true → time_of e + 60 * 1000 < 95000) idle_history
unfolding run step intercept_call timeout_round on_other_event matched idle_limit
idle_stop_justified_example =
    idle_stop_justified listener 60 refl driver idle_history 1000 95000 false
      (omega arith, omega arith) (omega arith, (omega arith, (omega arith, omega arith)))
      (omega arith) refl refl

idle_stop_prompt_example : IsStopped listener driver 60 30000 (20000 ∷ 50000 ∷ 80000 ∷ 110000 ∷ [])
idle_stop_prompt_example =
    idle_stop_prompt listener driver 60 30000 1000 (20000 ∷ 50000 ∷ 80000 ∷ 110000 ∷ []) refl refl
      (
        (omega arith, omega arith),
        (
          (omega arith, omega arith),
          ((omega arith, omega arith), ((omega arith, omega arith), tt)),
        ),
      )
      (omega arith, (omega arith, (omega arith, (omega arith, tt)))) (omega arith)
      (inr (inr (inl (omega arith))))

abbrev axum : Axum String
axum = record {
  matched = λ path. if path == "/callback" then some callback else none;
  app_id = λ text. err 400;
  list_query = λ body. err 400;
  create_json = λ body. err 422;
  callback_json = λ body.
      if body == "{\"address\": \"10.0.0.5:15002\", \"application_id\": \"app-2\"}"
      then ok (record { address = "10.0.0.5:15002"; application_id = "app-2" })
      else err 422;
}

abbrev registered_row : Model
registered_row = record (row 2 "bob" running "t2" (some "10.0.0.5:15002")) {
  application_id = some "app-2";
}

-- The server after the callback.
abbrev after : World memory
after =
    (get_router axum memory state methods
      (request axum memory state methods listener "10.0.0.5" 15002 world) world).1

served : IsServed axum memory state methods listener "10.0.0.5" 15002 world
unfolding callback_body show
served = record { matched = refl; parsed = refl }

delivered :
    IsSent axum memory state methods listener "10.0.0.5" 15002 world
      (accepting.send (started_request listener "10.0.0.5:15002"))
      after
unfolding get_router routed callback_api app_callback token_authorize split_once get started_request
    callback_body show
delivered = answered

started-IsRegistered_example :
    IsRegistered axum memory state methods listener "10.0.0.5" 15002 world after
    × (resolve_upstream_address memory "t2" ((false, after.db) ∷ []) ≡ some (ok "10.0.0.5:15002"))
unfolding get_router routed callback_api app_callback token_authorize split_once get started_request
    callback_body show on_other_event matched after_post
started-IsRegistered_example =
    started-IsRegistered axum memory state methods listener "10.0.0.5" 15002 world accepting 5000
      driver after (some registered_row) refl served delivered refl refl

abbrev ended_row : Model
ended_row = record registered_row { address = none; state = finished }

abbrev quiet_history : List Event
quiet_history = call 2000 none ∷ call 2500 (some "health") ∷ []

-- The configs of a command whose user would have another token.
abbrev submitted : Map String
submitted =
    submit_conf spark_launcher version (pos 2) none "t2" (("spark.plug.callback", "x") ∷ []) none

abbrev seconds : String → Result String ℕ
seconds time = if time == "3600" then ok 3600 else err "not a time"

launched_listener_example :
    listener_of (get submitted) seconds "app-2"
    ≡ ok (record {
      callback_addr = "http://10.0.0.9:8100";
      token = "t2";
      idle_timeout = some 3600;
      application_id = "app-2";
    })
unfolding show
launched_listener_example =
    launched_listener spark_launcher version (pos 2) none "t2" (("spark.plug.callback", "x") ∷ [])
      none (get submitted) seconds "app-2" (λ key value e. e) refl
