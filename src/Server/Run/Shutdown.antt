-- ===== src/Server/Run/Shutdown.antt =====
-- How `run` of server/src/lib.rs comes to its end.
use mathlib.Core.Path.{subst}
use spark_plug.Common.{
  ℕ, zero, suc, ◌+◌, ◌≤◌, ◌<◌, ◌≡◌, refl, Bool, true, not, some, List, [], ◌∷◌, nat_eq, eq_refl,
  arith, if◌then◌else◌, keep, map_where, length, ◌⊎◌, inl, inr, ◌∙◌, ◌*◌, ap,
}
use spark_plug.Server.Run.Orderly.{IsOrderly, step-IsOrderly, run_cons, run_nil}
use spark_plug.Server.Run.{
  Phase, draining, stopped, Connection, Run, Event, signal, incoming, accept_error, handshake,
  broken_off, graceful, ended, all_ended, is_id, is_untold, any, tell, in_phase, step, run,
}

List-cases :
    (cs : List Connection) → (cs ≡ []) ⊎ ((c : Connection) × (ds : List Connection) × (cs ≡ c ∷ ds))
List-cases [] = inl refl
List-cases (c ∷ cs) = inr (c, cs, refl)

-- What is left to do for the connections: to end, and before that to take the signal.
abbrev weight : Connection → ℕ
weight c = if c.told then 1 else 2

abbrev load : List Connection → ℕ
load [] = 0
load (c ∷ cs) = weight c + load cs

abbrev rank : Phase → ℕ
rank draining = 1
rank _ = 0

abbrev measure : Run → ℕ
measure s = rank s.phase + load s.connections

load-le-length : (cs : List Connection) → load cs ≤ 2 * length cs
load-le-length [] = omega arith
load-le-length (c ∷ cs) = ground (arith, load-le-length cs)

load-keep-le : (p : Connection → Bool) (cs : List Connection) → load (keep p cs) ≤ load cs
load-keep-le p [] = omega arith
load-keep-le p (c ∷ cs) = ground (arith, load-keep-le p cs)

load-keep-lt :
    (p : Connection → Bool) (cs : List Connection)
    → any p cs ≡ true
    → load (keep (λ c. not (p c)) cs) < load cs
load-keep-lt p [] h = cc
load-keep-lt p (c ∷ cs) h = ground (arith, load-keep-lt p cs, load-keep-le (λ c. not (p c)) cs)

load-tell-le : (i : ℕ) (cs : List Connection) → load (map_where (is_untold i) tell cs) ≤ load cs
load-tell-le i [] = omega arith
load-tell-le i (c ∷ cs) = ground (arith, load-tell-le i cs)

load-tell-lt :
    (i : ℕ) (cs : List Connection)
    → any (is_untold i) cs ≡ true
    → load (map_where (is_untold i) tell cs) < load cs
load-tell-lt i [] h = cc
load-tell-lt i (c ∷ cs) h = ground (arith, load-tell-lt i cs, load-tell-le i cs)

-- The loop is left.
abbrev IsLeft : Phase → Type 0
IsLeft p = (p ≡ draining) ⊎ (p ≡ stopped)

step-lowers :
    (tls : Bool) (s t : Run) (e : Event)
    → IsOrderly s
    → IsLeft s.phase
    → step tls s e ≡ some t
    → IsLeft t.phase × (measure t < measure s)
unfolding step in_phase
step-lowers tls s t signal h l q = ground arith
step-lowers tls s t (graceful i) h l q = ground (arith, load-tell-lt i s.connections)
step-lowers tls s t (ended i) h l q = ground (arith, load-keep-lt (is_id i) s.connections)
step-lowers tls s t incoming h l q = ground arith
step-lowers tls s t (accept_error e) h l q = ground arith
step-lowers tls s t broken_off h l q = ground arith
step-lowers tls s t all_ended h l q = ground arith
step-lowers tls s t (handshake r) h l q = ground arith

-- Each event after the loop is left lowers the measure, so there are no more events than that.
length-le-measure :
    (tls : Bool) (s t : Run) (es : List Event)
    → IsOrderly s
    → IsLeft s.phase
    → run tls s es ≡ some t
    → IsLeft t.phase × (length es ≤ measure s)
length-le-measure tls s t [] h l q =
    (subst (λ r. IsLeft r.phase) (run_nil tls s t q) l, omega arith)
length-le-measure tls s t (e ∷ es) h l q =
    let (u, f, g) = run_cons tls s t e es q in
    let (l', lower) = step-lowers tls s u e h l f in
    let (left, ih) = length-le-measure tls u t es (step-IsOrderly tls s u e h f) l' g in
    (left, omega arith)

run-step :
    (tls : Bool) (s u : Run) (e : Event) (es : List Event)
    → step tls s e ≡ some u
    → run tls s (e ∷ es) ≡ run tls u es
run-step tls s u e es f = unfold run in ground arith

length-keep-le : (p : Connection → Bool) (cs : List Connection) → length (keep p cs) ≤ length cs
length-keep-le p [] = omega arith
length-keep-le p (c ∷ cs) = ground (arith, length-keep-le p cs)

-- Events that lead from a state to the end of `run`.
pub record Ends (tls : Bool) (s : Run) : Type 0 where
  pub events : List Event
  pub last : Run
  pub runs : run tls s events ≡ some last
  pub at_end : last.phase ≡ stopped

-- The first connection ends, or there is none.
ended_first :
    (tls : Bool) (s : Run) (c : Connection) (cs : List Connection)
    → s.connections ≡ c ∷ cs
    → (u : Run) × (step tls s (ended c.id) ≡ some u)
      × (u.phase ≡ s.phase)
      × (length u.connections ≤ length cs)
unfolding step
ended_first tls s c cs e = (
  record s { connections = keep (λ d. not (is_id c.id d)) s.connections },
  rw e (rw (eq_refl c.id) refl),
  refl,
  rw e (rw (eq_refl c.id) (length-keep-le (λ d. not (is_id c.id d)) cs)),
)

all_ended_step :
    (tls : Bool) (s : Run)
    → s.phase ≡ draining
    → s.connections ≡ []
    → step tls s all_ended ≡ some (record s { phase = stopped })
unfolding step in_phase
all_ended_step tls s d e = ground arith

ended_last : (tls : Bool) (s : Run) → s.phase ≡ draining → s.connections ≡ [] → Ends tls s
ended_last tls s d e = record {
  events = all_ended ∷ [];
  last = record s { phase = stopped };
  runs =
      run-step tls s (record s { phase = stopped }) all_ended [] (all_ended_step tls s d e)
      ∙ unfold run in refl;
  at_end = refl;
}

draining-Ends :
    (n : ℕ) (tls : Bool) (s : Run) → length s.connections ≤ n → s.phase ≡ draining → Ends tls s
draining-Ends zero tls s b d = elim (List-cases s.connections) [
  | inl e ↦ ended_last tls s d e
  | inr (c, cs, e) ↦ absurd (omega (arith, ap length e))
]
draining-Ends (suc n) tls s b d = elim (List-cases s.connections) [
  | inl e ↦ ended_last tls s d e
  | inr (c, cs, e) ↦
      let (u, f, same, fewer) = ended_first tls s c cs e in
      let rest = draining-Ends n tls u (omega (arith, ap length e)) (same ∙ d) in
      record {
        events = ended c.id ∷ rest.events;
        last = rest.last;
        runs = run-step tls s u (ended c.id) rest.events f ∙ rest.runs;
        at_end = rest.at_end;
      }
]

left-Ends : (tls : Bool) (s : Run) → IsLeft s.phase → Ends tls s
left-Ends tls s (inl d) = draining-Ends (length s.connections) tls s (omega arith) d
left-Ends tls s (inr e) = record { events = []; last = s; runs = unfold run in refl; at_end = e }

-- Once the loop of `run` is left, after the signal, the shutdown ends: no order of events goes on for longer than
-- twice the number of the connections and one more, and wherever one stands, the shutdown can be
-- brought to its end.
pub shutdown_terminates :
    (tls : Bool) (s t : Run) (es : List Event)
    → IsOrderly s
    → s.phase ≡ draining
    → run tls s es ≡ some t
    → Ends tls t × (length es ≤ 2 * length s.connections + 1)
shutdown_terminates tls s t es h d q =
    let (left, short) = length-le-measure tls s t es h (inl d) q in
    (left-Ends tls t left, omega (arith, load-le-length s.connections, ap rank d))
