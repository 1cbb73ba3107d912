-- ===== src/Plugin/Prompt.antt =====
-- How soon the thread of the Spark plugin's `SparkPlugListener` stops a session that is idle.
use spark_plug.Common.{
  ℕ, ◌+◌, ◌≤◌, ◌<◌, ◌≡◌, refl, true, false, some, List, [], ◌∷◌, ◌++◌, arith, All, Any, map, inl,
  inr, leb, Bool-cases, ap, ◌∙◌,
}
use spark_plug.Plugin.{Driver, Listener, Event, round, step, run}
use spark_plug.Plugin.Idle.{IsInRange, deadline, round_waits, round_stops}
use spark_plug.Plugin.Timeout.{watched_round}

-- Rounds at these times that find no executions.
abbrev pub quiet_rounds : List ℕ → List Event
quiet_rounds times = map (λ now. round now false) times

-- Each time is at most `gap` later than the one before, from `t` on: what a round takes, and the
-- sleep after it.
abbrev pub IsSpaced : ℕ → ℕ → List ℕ → Type 0
IsSpaced gap t [] = Unit
IsSpaced gap t (now ∷ times) = (now ≤ t + gap) × IsSpaced gap now times

module _ (l : Listener) (d : Driver) (timeout : ℕ) (gap : ℕ) where
  -- One of the rounds stops the session: none before it does anything, and it is after the
  -- deadline, by at most the distance of two rounds.
  pub record IsStopped (times : List ℕ) : Type 0 where
    pub before : List ℕ
    pub now : ℕ
    pub after : List ℕ
    pub split : times ≡ before ++ (now ∷ after)
    pub waited : run l d (quiet_rounds before) ≡ d
    pub stops : (step l d (round now false)).stopped ≡ true
    pub late : deadline d timeout < now
    pub soon : now ≤ deadline d timeout + gap

  waits_first :
      (now : ℕ) (times : List ℕ)
      → step l d (round now false) ≡ d
      → IsStopped times
      → IsStopped (now ∷ times)
  unfolding run
  waits_first now times e s = record {
    before = now ∷ s.before;
    now = s.now;
    after = s.after;
    split = ap (λ x. now ∷ x) s.split;
    waited = ap (λ x. run l x (quiet_rounds s.before)) e ∙ s.waited;
    stops = s.stops;
    late = s.late;
    soon = s.soon;
  }

  -- Where a driver is watched, and only rounds that find no executions follow, each at most `gap`
  -- after the one before and one of them after the deadline, one of them stops the session, later
  -- than the deadline by at most `gap`; those before it do nothing.
  pub idle_stop_prompt :
      (t : ℕ) (times : List ℕ)
      → l.idle_timeout ≡ some timeout
      → d.watched ≡ true
      → All (λ now. IsInRange now timeout) times
      → IsSpaced gap t times
      → t ≤ deadline d timeout
      → Any (λ now. deadline d timeout < now) times
      → IsStopped times
  idle_stop_prompt t [] c w r s k any = absurd any
  idle_stop_prompt t (now ∷ times) c w r s k any =
      elim (Bool-cases (leb now (deadline d timeout))) [
        | inl e ↦
            waits_first now times
              (watched_round l timeout c d now false w
                ∙ round_waits timeout now d r.0 (ground arith))
              (idle_stop_prompt now times c w r.1 s.1 (ground arith) (later now times e any))
        | inr e ↦ record {
          before = [];
          now = now;
          after = times;
          split = refl;
          waited = unfold run in refl;
          stops =
              ap (λ x. x.stopped) (watched_round l timeout c d now false w)
              ∙ round_stops timeout now d r.0 (ground arith);
          late = ground arith;
          soon = ground arith;
        }
      ]
    where
      later :
          (now : ℕ) (times : List ℕ)
          → leb now (deadline d timeout) ≡ true
          → Any (λ now. deadline d timeout < now) (now ∷ times)
          → Any (λ now. deadline d timeout < now) times
      later now times e (inl p) = absurd (ground arith)
      later now times e (inr p) = p
