-- ===== src/Tests/Run.antt =====
-- Runs of the loop that accepts connections, and of its end.
use spark_plug.Common.{◌+◌, ◌*◌, ◌≤◌, ◌≡◌, refl, true, false, List, [], ◌∷◌, nat_eq, ok, Any, All}
use spark_plug.Server.Run.{
  stopped, draining, handshaking, aborted, Run, Event, start, signal, incoming, broken_off,
  graceful, handshake, ended, all_ended, step, run,
}
use spark_plug.Server.Run.Orderly.{IsOrderly}
use spark_plug.Server.Run.Accounted.{accepted, numbers, stopped_accounts}
use spark_plug.Server.Run.Shutdown.{Ends, shutdown_terminates}
use spark_plug.Server.Run.Handshake.{failed_handshake_is_final}

-- Two connections are accepted by TLS, and one of them ends after the loop is left.
abbrev events : List Event
events =
    incoming
    ∷ handshake (ok tt)
    ∷ incoming
    ∷ handshake (ok tt)
    ∷ ended 1
    ∷ signal
    ∷ graceful 0
    ∷ broken_off
    ∷ ended 0
    ∷ all_ended
    ∷ []

abbrev over : Run
over = record start { phase = stopped; signalled = true; next = 2 }

stopped_accounts_example :
    Any (λ e. e ≡ signal) events
    × All (λ i. Any (λ e. e ≡ ended i) events) (numbers (accepted true events))
unfolding run step
stopped_accounts_example = stopped_accounts true over events refl refl

-- After the loop, with one connection.
abbrev leaving : Run
leaving = record start {
  phase = draining;
  signalled = true;
  connections = (record { id = 0; told = false }) ∷ [];
  next = 1;
}

leaving-IsOrderly : IsOrderly leaving
leaving-IsOrderly = record { left = λ e. refl; over = λ e. cc }

-- Its task takes the signal.
abbrev told : Run
told = record leaving { connections = (record { id = 0; told = true }) ∷ [] }

shutdown_terminates_example : Ends true told × (1 ≤ 2 * 1 + 1)
unfolding run step
shutdown_terminates_example =
    shutdown_terminates true leaving told (graceful 0 ∷ []) leaving-IsOrderly refl refl

-- In a handshake, with one connection.
abbrev greeting : Run
greeting = record leaving { phase = handshaking; signalled = false }

abbrev failing : Run
failing = record greeting { phase = aborted "bad record"; connections = [] }

failed_handshake_is_final_example :
    (failing.phase ≡ aborted "bad record") × (failing.next ≡ greeting.next)
unfolding run step
failed_handshake_is_final_example =
    failed_handshake_is_final true greeting failing (ended 0 ∷ []) "bad record" refl refl
