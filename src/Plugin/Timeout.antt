-- ===== src/Plugin/Timeout.antt =====
-- When the thread of the Spark plugin's `SparkPlugListener` stops an idle session, among the other
-- events of the driver.
use spark_plug.Common.{
  ℕ, String, ◌+◌, ◌*◌, ◌≤◌, ◌<◌, ◌≡◌, refl, Bool, true, false, Option, none, some, List, [], ◌∷◌,
  arith, All, sym, ap, ◌∙◌, All-zip, All-of,
}
use spark_plug.Plugin.{
  Driver, Listener, Event, call, listened, round, timeout_round, intercept_call, watch,
  update_last_active, step, run,
}
use spark_plug.Plugin.Keeps.{matched_config, matched_watched}
use spark_plug.Plugin.Idle.{IsInRange, deadline, round_stopped}

abbrev pub time_of : Event → ℕ
time_of (call now message) = now
time_of (listened world now event) = now
time_of (round now active) = now

-- A call that is not the server's, an event of Spark, and a round that finds executions.
abbrev pub is_activity : Event → Bool
is_activity (call now none) = true
is_activity (call now (some message)) = false
is_activity (listened world now event) = true
is_activity (round now active) = active

-- The clock does not go back, from `t` on.
abbrev pub IsOrdered : ℕ → List Event → ℕ → Type 0
IsOrdered t [] now = t ≤ now
IsOrdered t (e ∷ es) now = (t ≤ time_of e) × IsOrdered (time_of e) es now

abbrev last : Driver → ℕ
last d = d.config.last_active

message_config :
    (now : ℕ) (m : String) (d : Driver) → last (intercept_call now (some m) d).1 ≡ last d
unfolding intercept_call
message_config now m d = ground arith

message_watched :
    (now : ℕ) (m : String) (d : Driver) → (intercept_call now (some m) d).1.watched ≡ d.watched
unfolding intercept_call
message_watched now m d = ground arith

watch_last :
    (t : Option ℕ) (now : ℕ) (active : Bool) (d : Driver)
    → last d ≤ now
    → (last d ≤ last (watch t now active d)) × (last (watch t now active d) ≤ now)
unfolding timeout_round
watch_last none now active d h = (omega arith, h)
watch_last (some t) now active d h = ground arith

watch_watched :
    (t : Option ℕ) (now : ℕ) (active : Bool) (d : Driver)
    → (watch t now active d).watched ≡ true
    → d.watched ≡ true
unfolding timeout_round
watch_watched none now active d h = h
watch_watched (some t) now active d h = ground arith

module _ (l : Listener) (timeout : ℕ) (configured : l.idle_timeout ≡ some timeout) where
  step_last :
      (d : Driver) (e : Event)
      → last d ≤ time_of e
      → (last d ≤ last (step l d e)) × (last (step l d e) ≤ time_of e)
  unfolding step
  step_last d (call now none) h = (h, omega arith)
  step_last d (call now (some m)) h = rw (message_config now m d) (omega arith, h)
  step_last d (listened world now e) h =
      rw (matched_config world l e (update_last_active now d), last) (h, omega arith)
  step_last d (round now active) h = watch_last l.idle_timeout now active d h

  step_activity :
      (d : Driver) (e : Event)
      → d.watched ≡ true
      → is_activity e ≡ true
      → last (step l d e) ≡ time_of e
  unfolding step
  step_activity d (call now none) w a = refl
  step_activity d (call now (some m)) w a = cc
  step_activity d (listened world now e) w a =
      ap (λ c. c.last_active) (matched_config world l e (update_last_active now d))
  step_activity d (round now active) w a = rw (configured, a, w) refl

  step_watched : (d : Driver) (e : Event) → (step l d e).watched ≡ true → d.watched ≡ true
  unfolding step
  step_watched d (call now none) w = w
  step_watched d (call now (some m)) w = sym (message_watched now m d) ∙ w
  step_watched d (listened world now e) w =
      sym (matched_watched world l e (update_last_active now d)) ∙ w
  step_watched d (round now active) w = watch_watched l.idle_timeout now active d w

  pub watched_round :
      (d : Driver) (now : ℕ) (active : Bool)
      → d.watched ≡ true
      → step l d (round now active) ≡ timeout_round timeout now active d
  unfolding step
  watched_round d now active w = rw configured (ground arith)

  ended :
      (d : Driver) (now : ℕ) (active : Bool)
      → IsInRange now timeout
      → d.watched ≡ true
      → (step l d (round now active)).watched ≡ false
      → (active ≡ false) × (deadline d timeout < now)
  ended d now active h w e =
      round_stopped timeout now active d h w
        (ap (λ x. x.watched) (sym (watched_round d now active w)) ∙ e)

  run_watched : (d : Driver) (es : List Event) → (run l d es).watched ≡ true → d.watched ≡ true
  unfolding run
  run_watched d [] w = w
  run_watched d (e ∷ es) w = step_watched d e (run_watched (step l d e) es w)

  -- The last activity is not before any of them.
  run_last :
      (t now : ℕ) (d : Driver) (es : List Event)
      → IsOrdered t es now
      → last d ≤ t
      → (run l d es).watched ≡ true
      → (last d ≤ last (run l d es))
        × All (λ e. is_activity e ≡ true → time_of e ≤ last (run l d es)) es
  unfolding run
  run_last t now d [] o h w = (omega arith, tt)
  run_last t now d (e ∷ es) o h w =
      let watched = step_watched d e (run_watched (step l d e) es w) in
      let (low, high) = step_last d e (omega arith) in
      let (more, all) = run_last (time_of e) now (step l d e) es o.1 high w in
      (omega arith, (λ a. let same = step_activity d e watched a in omega arith, all))

  -- The round that ends the thread finds no executions, and comes later than the timeout after
  -- every activity: the clock not going back, and being in range.
  pub idle_stop_justified :
      (d : Driver) (es : List Event) (t now : ℕ) (active : Bool)
      → IsInRange now timeout
      → IsOrdered t es now
      → d.config.last_active ≤ t
      → (run l d es).watched ≡ true
      → (step l (run l d es) (round now active)).watched ≡ false
      → (active ≡ false) × All (λ e. is_activity e ≡ true → time_of e + timeout * 1000 < now) es
  idle_stop_justified d es t now active h o k w e =
      let (low, all) = run_last t now d es o k w in
      let (quiet, late) = ended (run l d es) now active h w e in
      (quiet, All-zip (λ x p u a. let q = p a in omega arith) es all (All-of es (λ x. tt)))
