-- ===== src/Tests/Client.antt =====
-- Runs of the client, against the server of the runs of the router.
use spark_plug.Common.{
  pos, String, ◌≡◌, ◌≤◌, ◌<◌, refl, Bool, true, false, none, some, ◌∷◌, Result, ok, err, arith, leb,
  ltb, ◌&&◌,
}
use spark_plug.Database.Memory.{memory}
use spark_plug.Text.{split}
use spark_plug.Text.Pieces.{lacks}
use spark_plug.Text.Show.{show_int, show}
use spark_plug.Auth.{remote_user, authorize}
use spark_plug.Router.{Method, Request, get_router, routed, user_api}
use spark_plug.Routes.{delete_app}
use spark_plug.Routes.Api.{World}
use spark_plug.Client.{
  Network, Reply, SparkPlugClient, Application, stop_application, create_session,
}
use spark_plug.Client.Stop.{IsConnected, answered, IsStopped, status_of, stop_application-IsStopped}
use spark_plug.Client.Connection.{parameters, create_session-connects}
use spark_plug.Tests.Data.{world, with_header}
use spark_plug.Tests.Router.{axum, state, methods}

abbrev client : SparkPlugClient
client = record { base_url = "https://spark:8443" }

abbrev refusal : Bool → Result String (Unit {0})
refusal true = err "HTTP status client error"
refusal false = ok tt

-- The request that the client's reaches the server as.
abbrev sent : Request String
sent = record {
  method = Method.delete;
  path = "/apps/1";
  headers = with_header "x-user" "ada";
  body = "";
  uuid = "t9";
}

-- A network that delivers every delete to the server as that request.
abbrev network : Network (World memory)
network = record {
  post = λ url body w. (err "unreachable", w);
  delete = λ url w.
      let (o, w') = get_router axum memory state methods sent w in
      (ok (record { status = status_of o; json = err "no body" }), w');
  error_for_status = λ r. refusal (leb 400 r.status && ltb r.status 600);
  parse = λ text. ok (record { host_str = some "spark"; port = some 8443 });
  get_or_create = λ text w. (ok tt, w);
}

refuses :
    (r : Reply)
    → 400 ≤ r.status
    → r.status < 600
    → (e : String) × (network.error_for_status r ≡ err e)
refuses r low high = ("HTTP status client error", ground arith)

connected :
    IsConnected axum memory state methods network client
      (pos 1)
      (with_header "x-user" "ada")
      ""
      "t9"
      world
unfolding show_int
connected = record { sent = answered _ refl; refused = refuses; matched = refl; parsed = refl }

stop_application-IsStopped_example :
    IsStopped axum memory state methods network client
      (pos 1)
      (with_header "x-user" "ada")
      ""
      "t9"
      world
      (stop_application network client (pos 1) world).1
unfolding stop_application get_router routed user_api authorize remote_user delete_app
stop_application-IsStopped_example =
    stop_application-IsStopped axum memory state methods network client (pos 1)
      (with_header "x-user" "ada") "" "t9" world tt connected refl

abbrev application : Application
application = record { id = pos 1; token = "t1"; active = true; log_url = none }

create_session-connects_example :
    (text : String) × (create_session network client application world ≡ (ok tt, world))
    × (split 59 text ≡ "sc://spark:8443/" ∷ parameters client application)
unfolding lacks show
create_session-connects_example =
    create_session-connects network client application world
      (record { host_str = some "spark"; port = some 8443 }) "spark" refl refl refl refl
