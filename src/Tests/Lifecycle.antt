-- ===== src/Tests/Lifecycle.antt =====
-- Runs of the lifecycle, from an empty table.
use spark_plug.Common.{
  count_where, ◌≤◌, pos, refl, ◌≢◌, false, none, some, List, [], ok, err, string_eq, int_eq,
}
use spark_plug.Database.Memory.{memory}
use spark_plug.Routes.{create_app, app_callback, app_callback_delete}
use spark_plug.Routes.Api.{World, CreateApplicationRequest, ApplicationCallbackRequest}
use spark_plug.Lifecycle.Rows.{IsValid}
use spark_plug.Lifecycle.Reach.{Reach, here, next, created, called_back, ended, Reach-IsValid}
use spark_plug.Lifecycle.Registry.{view, ◌⟶◌}
use spark_plug.Lifecycle.Refines.{Reach-Evolves}
use spark_plug.Proxy.Cache.{has_token}
use spark_plug.Lifecycle.Tokens.{here, next, FreshReach, FreshReach-count_token}
use spark_plug.Error.{missing_application_address}
use spark_plug.Application.{Model, launching}
use spark_plug.Database.{NewModel}
use spark_plug.Proxy.Upstream.{verdict, mark_failed}
use spark_plug.Routes.Api.{set_running}
use spark_plug.Lifecycle.Statements.{Statements, further, inserted, reported, unhealthy}
use spark_plug.Lifecycle.Statements.{here as start_of_run}
use spark_plug.Lifecycle.Addressed.{missing_address_never}
use spark_plug.Tests.Data.{app_state, cache, ada, bearer_t1}

abbrev start : World memory
start = record { db = []; upstreams = cache; watched = [] }

abbrev request : CreateApplicationRequest
request = record { name = none; version = none; config = none; python_packages = none }

abbrev callback : ApplicationCallbackRequest
callback = record { address = "10.0.0.1:15002"; application_id = "app-1" }

abbrev launched : World memory
launched = (create_app memory (app_state (ok tt) (ok tt)) "t1" ada request start).1

abbrev ran : World memory
ran = (app_callback memory bearer_t1 callback launched).1

-- An application is created and its driver reports back.
reached : Reach memory start ran
reached =
    next (next here (created (app_state (ok tt) (ok tt)) "t1" ada request))
      (called_back bearer_t1 callback)

Reach-IsValid_example : IsValid ran.db
Reach-IsValid_example =
    Reach-IsValid memory start ran reached (record { settled = tt; unique = tt })

-- The driver's end is reported.
abbrev finished_app : World memory
finished_app = (app_callback_delete memory bearer_t1 ran).1

Reach-Evolves_example : view ran.db (pos 1) ⟶ view finished_app.db (pos 1)
Reach-Evolves_example =
    Reach-Evolves memory start ran finished_app reached (record { settled = tt; unique = tt })
      (ended bearer_t1) (pos 1)

-- The token of the one application is new.
freshly : FreshReach memory start ran
freshly =
    next (next here (created (app_state (ok tt) (ok tt)) "t1" ada request) tt)
      (called_back bearer_t1 callback) tt

FreshReach-count_token_example : count_where (has_token "t1") ran.db ≤ 1
FreshReach-count_token_example = FreshReach-count_token memory start ran "t1" refl freshly

-- The statements of a creation and of a check, with a callback between those of each.
abbrev inserted_row : NewModel
inserted_row = record { username = "ada"; name = none; state = launching; token = "t1" }

abbrev first_db : List Model
first_db = (memory.insert inserted_row []).1

abbrev second_db : List Model
second_db = (memory.update_many (set_running callback) (has_token "t1") first_db).1

abbrev third_db : List Model
third_db = (memory.update (pos 1) mark_failed second_db).1

abbrev fourth_db : List Model
fourth_db = (memory.update_many (set_running callback) (has_token "t1") third_db).1

interleaved : Statements memory [] fourth_db
interleaved =
    further
      (further
        (further (further start_of_run (inserted inserted_row refl)) (reported callback "t1"))
        (unhealthy (pos 1)))
      (reported callback "t1")

missing_address_never_example :
    verdict memory "t1" (false, fourth_db) ≢ some (err missing_application_address)
missing_address_never_example =
    missing_address_never memory [] fourth_db "t1" false refl interleaved
