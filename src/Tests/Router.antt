-- ===== src/Tests/Router.antt =====
-- Requests to the whole server, over a table of two applications of different users.
use spark_plug.Common.{
  pos, String, ◌≡◌, Bool, true, not, none, some, List, [], ◌∷◌, ok, err, keep, ◌==◌, string_eq,
  eq_iff, arith, if◌then◌else◌, ap, sym, ok_injective, ok-ne-err,
}
use spark_plug.Application.{Model}
use spark_plug.Database.Memory.{memory}
use spark_plug.Http.{HeaderMap}
use spark_plug.Auth.{UserAuthMethod, remote_user, authorize, token_authorize}
use spark_plug.Router.{Axum, Method, app, apps, Request, call}
use spark_plug.Router.Layers.{IsAnonymous, IsRefusal, call_anonymous}
use spark_plug.Router.Others.{LeavesOut, call_keeps_others}
use spark_plug.Routes.Api.{AppState}
use spark_plug.Tests.Proxy.{meanwhile}
use spark_plug.Tests.Data.{app_state, world, rows, with_header}

abbrev pub axum : Axum String
axum = record {
  matched = λ path.
      if path == "/apps/1" then some (app "1") else if path == "/apps" then some apps else none;
  app_id = λ text. if text == "1" then ok (pos 1) else err 400;
  list_query = λ body. err 400;
  create_json = λ body. err 422;
  callback_json = λ body. err 422;
}

abbrev pub state : AppState
state = app_state (ok tt) (ok tt)

abbrev pub methods : List UserAuthMethod
methods = remote_user "x-user" ∷ []

abbrev delete_by : HeaderMap → Request String
delete_by headers = record {
  method = Method.delete;
  path = "/apps/1";
  headers = headers;
  body = "";
  uuid = "t9";
}

-- The applications of other users than "ada".
abbrev others : Model → Bool
others m = not (m.username == "ada")

leaves_out : LeavesOut axum memory state others methods (with_header "x-user" "ada")
unfolding authorize remote_user token_authorize
leaves_out = record {
  user = λ x e m h.
      let same : "ada" ≡ x.name = ap (λ u. u.name) (ok_injective e) in
      ground (arith, eq_iff m.username "ada");
  token = λ x e. absurd (ok-ne-err (sym e));
}

call_keeps_others_example :
    keep others
      (call axum memory state
        (λ bytes. true)
        meanwhile
        methods
        (delete_by (with_header "x-user" "ada"))
        world).1.db
    ≡ keep others rows
call_keeps_others_example =
    call_keeps_others axum memory state others (λ bytes. true) meanwhile methods
      (delete_by (with_header "x-user" "ada")) world leaves_out

nobody : IsAnonymous methods (λ name. none)
unfolding remote_user
nobody = record { no_user = (λ v e. cc, tt); no_token = λ t e. cc }

call_anonymous_example :
    IsRefusal
      (call axum memory state (λ bytes. true) meanwhile methods (delete_by (λ name. none)) world).0
    × ((call axum memory state (λ bytes. true) meanwhile methods (delete_by (λ name. none)) world).1
        ≡ world)
call_anonymous_example =
    call_anonymous axum memory state methods (delete_by (λ name. none)) world nobody (λ bytes. true)
      meanwhile
