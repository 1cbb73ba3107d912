-- ===== src/Server/Run/Orderly.antt =====
-- When `run` of server/src/lib.rs returns.
use mathlib.Core.Path.{subst}
use spark_plug.Common.{
  ◌≡◌, refl, Bool, true, some, List, [], ◌∷◌, nat_eq, arith, inl, inr, Option-cases,
}
use spark_plug.Server.Run.{
  Phase, draining, stopped, Run, Event, signal, incoming, accept_error, handshake, broken_off,
  graceful, ended, all_ended, in_phase, step, run,
}

-- After the loop the signal has come, and `run` returns only without connections.
pub record IsOrderly (s : Run) : Type 0 where
  pub left : s.phase ≡ draining → s.signalled ≡ true
  pub over : s.phase ≡ stopped → (s.signalled ≡ true) × (s.connections ≡ [])

in_phase-IsOrderly :
    (tls : Bool) (p : Phase) (s t : Run) (e : Event)
    → s.phase ≡ p
    → IsOrderly s
    → in_phase tls p e s ≡ some t
    → IsOrderly t
unfolding in_phase
in_phase-IsOrderly tls p s t e f h q = ground arith

pub step-IsOrderly :
    (tls : Bool) (s t : Run) (e : Event) → IsOrderly s → step tls s e ≡ some t → IsOrderly t
unfolding step
step-IsOrderly tls s t signal h q = ground arith
step-IsOrderly tls s t (graceful i) h q = ground arith
step-IsOrderly tls s t (ended i) h q = ground arith
step-IsOrderly tls s t incoming h q = in_phase-IsOrderly tls s.phase s t incoming refl h q
step-IsOrderly tls s t (accept_error e) h q =
    in_phase-IsOrderly tls s.phase s t (accept_error e) refl h q
step-IsOrderly tls s t broken_off h q = in_phase-IsOrderly tls s.phase s t broken_off refl h q
step-IsOrderly tls s t all_ended h q = in_phase-IsOrderly tls s.phase s t all_ended refl h q
step-IsOrderly tls s t (handshake r) h q = in_phase-IsOrderly tls s.phase s t (handshake r) refl h q

pub run_cons :
    (tls : Bool) (s t : Run) (e : Event) (es : List Event)
    → run tls s (e ∷ es) ≡ some t
    → (u : Run) × (step tls s e ≡ some u) × (run tls u es ≡ some t)
run_cons tls s t e es q = elim (Option-cases (step tls s e)) [
  | inl f ↦ absurd (unfold run in ground arith)
  | inr (u, f) ↦ (u, f, unfold run in ground arith)
]

pub run_nil : (tls : Bool) (s t : Run) → run tls s [] ≡ some t → s ≡ t
unfolding run
run_nil tls s t q = cc q

-- So over any events.
pub run-IsOrderly :
    (tls : Bool) (s t : Run) (es : List Event) → IsOrderly s → run tls s es ≡ some t → IsOrderly t
run-IsOrderly tls s t [] h q = subst IsOrderly (run_nil tls s t q) h
run-IsOrderly tls s t (e ∷ es) h q =
    let (u, f, g) = run_cons tls s t e es q in
    run-IsOrderly tls u t es (step-IsOrderly tls s u e h f) g
