-- ===== src/Plugin/Ending.antt =====
-- Who reports the end of a session: its driver (`SparkPlugListener`) or the server that told it to
-- stop (`SparkPlugInterceptor` of the Spark plugin).
use spark_plug.Common.{
  ℕ, String, ◌≡◌, Bool, false, ◌||◌, some, List, [], ◌∷◌, ◌==◌, string_eq, arith, Result,
}
use spark_plug.Plugin.{Driver, Event, call, after_post}

-- The call by which the server tells the driver to stop.
abbrev pub is_stop : Event → Bool
is_stop (call now (some message)) = message == "stop"
is_stop e = false

abbrev pub any_stop : List Event → Bool
any_stop [] = false
any_stop (e ∷ es) = is_stop e || any_stop es

abbrev shutdown : Driver → Bool
shutdown d = d.config.external_shutdown

shutdown-after_post : (r : Result String ℕ) (d : Driver) → shutdown (after_post r d) ≡ shutdown d
unfolding after_post
shutdown-after_post r d = ground arith
