-- ===== src/Plugin/Keeps.antt =====
-- What the callbacks of the Spark plugin's `SparkPlugListener` leave as it is.
use spark_plug.Common.{ℕ, ◌≡◌, refl, arith, Result}
use spark_plug.Plugin.{
  Driver, Listener, ListenerEvent, connect_service_started, connect_service_end, other, World,
  started_request, connect_uri, sent_by, after_post, matched,
}

after_post_config : (r : Result _ ℕ) (d : Driver) → (after_post r d).config ≡ d.config
unfolding after_post
after_post_config r d = ground arith

after_post_watched : (r : Result _ ℕ) (d : Driver) → (after_post r d).watched ≡ d.watched
unfolding after_post
after_post_watched r d = ground arith

module _ (world : World) (l : Listener) where
  -- The shared state is not changed by the match on the event.
  pub matched_config : (e : ListenerEvent) (d : Driver) → (matched world l e d).config ≡ d.config
  unfolding matched
  matched_config (connect_service_started h p) d = ground (
    arith,
    after_post_config (world.send (started_request l (connect_uri h p)))
        (sent_by (started_request l (connect_uri h p)) d),
  )
  matched_config connect_service_end d = ground arith
  matched_config other d = refl

  -- Nor is the thread for the timeout ended.
  pub matched_watched : (e : ListenerEvent) (d : Driver) → (matched world l e d).watched ≡ d.watched
  unfolding matched
  matched_watched (connect_service_started h p) d = ground (
    arith,
    after_post_watched (world.send (started_request l (connect_uri h p)))
        (sent_by (started_request l (connect_uri h p)) d),
  )
  matched_watched connect_service_end d = ground arith
  matched_watched other d = refl
