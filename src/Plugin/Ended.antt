-- ===== src/Plugin/Ended.antt =====
-- The callback of a driver that ends (`SparkPlugListener` of the Spark plugin), against the routes
-- of server/src/routes.rs, its cache of connections and the wait for an address of
-- server/src/proxy.rs.
use spark_plug.Common.{
  String, ◌≡◌, true, false, none, some, List, [], ◌∷◌, err, string_eq, map_where,
}
use spark_plug.Map.{get}
use spark_plug.Application.{Model, finished}
use spark_plug.Error.{invalid_application_state}
use spark_plug.Database.{Database}
use spark_plug.Auth.{UserAuthMethod, BearerToken}
use spark_plug.Proxy.Cache.{has_token}
use spark_plug.Proxy.Upstream.{resolve_upstream_address}
use spark_plug.Routes.Api.{AppState, World, set_finished}
use spark_plug.Router.{Axum, Method, Request, Response, done}
use spark_plug.Plugin.{Listener, end_request}
use spark_plug.Plugin.{World as Outside}
use spark_plug.Plugin.Registered.{header_map}

-- An application with a token is FINISHED.
abbrev IsOver : String → Model → Type 0
IsOver token m = has_token token m ≡ true → m.state ≡ finished

module _ {Body : Type 0} (A : Axum Body) (D : Database) (s : AppState)
    (methods : List UserAuthMethod) (l : Listener) (body : Body) (w : World D) where
  -- The request that the server gets.
  abbrev pub request : Request Body
  request = record {
    method = Method.delete;
    path = "/callback";
    headers = header_map (end_request l);
    body = body;
    uuid = "";
  }

  -- The session is over at the server: its rows are FINISHED, its connection is forgotten, and a
  -- dispatcher of its token that looks for the address is told so.
  pub record IsEnded (reply : Response × World D) : Type 0 where
    pub accepted : reply.0 ≡ done
    pub rows : D.rows reply.1.db ≡ map_where (has_token l.token) set_finished (D.rows w.db)
    pub forgotten : get reply.1.upstreams.connections l.token ≡ none
    pub refused :
        resolve_upstream_address D l.token ((false, reply.1.db) ∷ [])
        ≡ some (err (invalid_application_state finished))

  abbrev bearer : BearerToken
  bearer = record { token = l.token }
