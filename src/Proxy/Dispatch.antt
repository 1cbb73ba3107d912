-- ===== src/Proxy/Dispatch.antt =====
-- server/src/proxy.rs: `dispatch_request`, from a request to the dispatcher of its token.
pub mod Source
use spark_plug.Common.{ℕ, String, Option, none, some, Result, ok, err, if◌then◌else◌}
use spark_plug.Http.{HeaderMap}
use spark_plug.Database.{Database}
use spark_plug.Error.{Error, internal}
use spark_plug.Proxy.Bearer.{extract_bearer_token}
use spark_plug.Proxy.Cache.{Cache, Closed, sender_for, remove_closed}

-- What the rest of the world does for one request: the states of the channels in the sections of
-- `sender_for` and at `send`, what the other tasks do to the cache meanwhile, and what comes back
-- on the response channel of each dispatcher, if anything does. A response is a number.
pub record Meanwhile : Type 0 where
  pub now : Closed
  pub later : Closed
  pub during : Cache → Cache
  pub sending : Closed
  pub response : ℕ → Option (Result Error ℕ)

unfoldable pub received : Option (Result Error ℕ) → Result Error ℕ
received none = err (internal "Upstream response channel unexpectedly closed")
received (some r) = r

-- After `sender_for`.
unfoldable pub send_to : Meanwhile → String → Result Error ℕ × Cache → Result Error ℕ × Cache
unfolding received
send_to world token (err e, c) = (err e, c)
send_to world token (ok sender, c) =
    if world.sending sender
    then (err (internal "Upstream unexpectedly closed"), remove_closed world.sending token c)
    else (received (world.response sender), c)

module _ (D : Database) where
  unfoldable pub with_session :
      Meanwhile → D.Db → Result Error String → Cache → Result Error ℕ × Cache
  unfolding send_to
  with_session world db (err e) c = (err e, c)
  with_session world db (ok token) c =
      send_to world token (sender_for D world.now world.later world.during db token c)

  unfoldable pub dispatch_request : Meanwhile → D.Db → HeaderMap → Cache → Result Error ℕ × Cache
  unfolding with_session extract_bearer_token
  dispatch_request world db headers c = with_session world db (extract_bearer_token headers) c
