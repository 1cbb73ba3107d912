-- ===== src/Tests/Routes.antt =====
-- Runs of the handlers over a database of two applications.
use spark_plug.Common.{
  pos, String, ◌≡◌, refl, true, none, some, List, [], ◌∷◌, ok, All, string_eq, int_eq,
}
use spark_plug.Text.{split, trim}
use spark_plug.Application.{State, running, failed, launching, Model, try_from_value}
use spark_plug.Database.Memory.{memory}
use spark_plug.Proxy.Cache.{has_token}
use spark_plug.Routes.Api.{
  CreateApplicationRequest, ListApplicationsRequest, ApplicationCallbackRequest, AppState, info,
  state_filter, parse_states, is_listed,
}
use spark_plug.Routes.{create_app, list_apps, delete_app, app_callback, after_launch}
use spark_plug.Routes.Create.{IsCreated, create_app-IsCreated}
use spark_plug.Routes.Callback.{callback_revives}
use spark_plug.Routes.Selection.{is_listed_iff}
use spark_plug.Routes.Bag.{decide_by, IsAsked, IsAsked_iff, list_apps_bag}
use mathlib.Mathlib.Data.Multiset.Defs.{of_list}
use mathlib.Mathlib.Data.Multiset.MapFold.{map as bag_map}
use mathlib.Mathlib.Data.Multiset.Filter.{filter as bag_filter}
use spark_plug.Tests.Data.{app_state, world, rows, row, ada, bearer_t1}

abbrev state : AppState
state = app_state (ok tt) (ok tt)

abbrev create_request : CreateApplicationRequest
create_request = record { name = some "job"; version = none; config = none; python_packages = none }

abbrev created : Model
created = record (row 3 "ada" launching "t3" none) { name = some "job"; application_id = none }

create_app-IsCreated_example :
    IsCreated memory state "t3" ada create_request world
      (info state created)
      (create_app memory state "t3" ada create_request world).1
unfolding create_app after_launch info
create_app-IsCreated_example =
    create_app-IsCreated memory state "t3" ada create_request world (info state created) refl

abbrev first : Model
first = row 1 "ada" running "t1" (some "10.0.0.1:15002")

abbrev callback : ApplicationCallbackRequest
callback = record { address = "10.0.0.3:15002"; application_id = "app-1" }

callback_revives_example :
    All
      (λ m. has_token "t1" m ≡ true → m.state ≡ running)
      (app_callback memory bearer_t1 callback (delete_app memory state (pos 1) ada world).1).1.db
unfolding app_callback delete_app
callback_revives_example = callback_revives memory state (pos 1) ada bearer_t1 callback world refl

abbrev list_request : String → ListApplicationsRequest
list_request filter = record {
  state = some filter;
  created_at_after = none;
  created_at_before = some (pos 9);
}

-- The rows that the request asks for are decided by the test of the query.
abbrev asked_states : List State
asked_states = running ∷ failed ∷ []

parsed_states : state_filter (some "RUNNING, FAILED") ≡ ok asked_states
unfolding state_filter parse_states split trim try_from_value
parsed_states = refl

is_asked : (m : Model) → Dec (IsAsked memory state ada (list_request "RUNNING, FAILED") world m)
is_asked m =
    let selected = is_listed_iff "ada" asked_states none (some (pos 9)) m in
    let asked =
      IsAsked_iff memory state ada (list_request "RUNNING, FAILED") world asked_states m
        parsed_states in
    decide_by (is_listed "ada" asked_states none (some (pos 9)) m)
      (λ t. asked.0 (selected.0 t), λ h. selected.1 (asked.1 h))

list_apps_bag_example :
    of_list (info state first ∷ []) ≡ bag_map (info state) (bag_filter is_asked (of_list rows))
unfolding list_apps state_filter parse_states split trim try_from_value info
list_apps_bag_example =
    list_apps_bag memory state ada (list_request "RUNNING, FAILED") world is_asked
      (info state first ∷ []) refl
