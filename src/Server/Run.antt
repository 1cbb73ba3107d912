-- ===== src/Server/Run.antt =====
-- server/src/lib.rs: `run` and `serve_connection`, the loop that accepts connections, the tasks that
-- serve them, and the shutdown. Which of the branches of a `select!` that are ready is taken, and
-- when a task goes on, is a sequence of events.
pub mod Orderly
pub mod Accounted
pub mod Shutdown
pub mod Handshake
use spark_plug.Common.{
  ℕ, zero, suc, ◌+◌, String, Bool, true, false, not, ◌&&◌, ◌||◌, Option, none, some, List, [], ◌∷◌,
  ◌==◌, nat_eq, if◌then◌else◌, Result, ok, err, keep, map_where, unwrap_or,
}

-- Where `run` stands: in its loop, in a TLS handshake of that loop, after the loop, or returned.
pub data Phase : Type 0 where
  accepting handshaking draining stopped : Phase
  aborted : String → Phase

-- A task of `serve_connection`: its number, and whether its `signal_closed` has been taken. That
-- future is fused, so it is taken once.
pub record Connection : Type 0 where
  pub id : ℕ
  pub told : Bool

-- `signalled` says that `signal_rx` is dropped. `connections` are the tasks: each owns a
-- clone of `close_rx` from `serve_connection` on, and drops it as it ends.
pub record Run : Type 0 where
  pub phase : Phase
  pub signalled : Bool
  pub connections : List Connection
  pub next : ℕ

pub data Event : Type 0 where
  -- the task that waits for `shutdown_signal` ends
  signal : Event
  -- `listener.accept` gives a stream, and `acceptor.accept` its outcome
  incoming : Event
  -- `listener.accept` fails, and `unwrap` panics
  accept_error : String → Event
  handshake : Result String (Unit {0}) → Event
  -- the loop takes `signal_tx.closed`
  broken_off : Event
  -- a task takes its `signal_closed`, and its connection ends
  graceful : ℕ → Event
  ended : ℕ → Event
  -- `close_tx.closed`
  all_ended : Event

abbrev pub start : Run
start = record { phase = accepting; signalled = false; connections = []; next = 0 }

-- `serve_connection`
abbrev pub serve_connection : Run → Run
serve_connection s = record s {
  connections = (record { id = s.next; told = false }) ∷ s.connections;
  next = s.next + 1;
}

abbrev pub is_id : ℕ → Connection → Bool
is_id i c = c.id == i

abbrev pub is_untold : ℕ → Connection → Bool
is_untold i c = c.id == i && not c.told

abbrev pub any : (Connection → Bool) → List Connection → Bool
any p [] = false
any p (c ∷ cs) = p c || any p cs

abbrev pub tell : Connection → Connection
tell c = record c { told = true }

abbrev when : Bool → Run → Option Run
when b s = if b then some s else none

-- What an event does in a phase; `none` where it cannot happen. The first argument is whether
-- there is a `tls_acceptor`.
in_phase : Bool → Phase → Event → Run → Option Run
in_phase false accepting incoming s = some (serve_connection s)
in_phase true accepting incoming s = some (record s { phase = handshaking })
in_phase tls accepting (accept_error e) s = some (record s { phase = aborted e })
in_phase tls accepting broken_off s = when s.signalled (record s { phase = draining })
in_phase tls handshaking (handshake (ok u)) s =
    some (serve_connection (record s { phase = accepting }))
in_phase tls handshaking (handshake (err e)) s = some (record s { phase = aborted e })
in_phase tls draining all_ended s = elim s.connections [
  | [] ↦ some (record s { phase = stopped })
  | c ∷ cs ↦ none
]
in_phase tls p e s = none

-- The events of the other tasks may happen in every phase.
unfoldable pub step : Bool → Run → Event → Option Run
unfolding in_phase
step tls s signal = when (not s.signalled) (record s { signalled = true })
step tls s (graceful i) =
    when (s.signalled && any (is_untold i) s.connections)
      (record s { connections = map_where (is_untold i) tell s.connections })
step tls s (ended i) =
    when (any (is_id i) s.connections)
      (record s { connections = keep (λ c. not (is_id i c)) s.connections })
step tls s e = in_phase tls s.phase e s

unfoldable pub run : Bool → Run → List Event → Option Run
unfolding step
run tls s [] = some s
run tls s (e ∷ es) = elim (step tls s e) [ none ↦ none | some s' ↦ run tls s' es ]

-- The address that `run` binds.
unfoldable pub bind_host : Option String → String
bind_host host = unwrap_or host "0.0.0.0"
