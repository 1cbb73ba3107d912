-- ===== src/Server/Run/Handshake.antt =====
-- What a TLS handshake does to the loop of `run` (server/src/lib.rs): `acceptor.accept(stream)` is
-- awaited in the loop, and its error is that of `run`.
use spark_plug.Common.{String, ◌≡◌, Bool, some, List, [], ◌∷◌, arith, err, All, ap, sym, ◌∙◌}
use spark_plug.Server.Run.{handshaking, aborted, Run, Event, handshake, step, in_phase, run}
use spark_plug.Server.Run.Orderly.{run_cons, run_nil}

aborted_step :
    (tls : Bool) (s t : Run) (x : Event) (e : String)
    → s.phase ≡ aborted e
    → step tls s x ≡ some t
    → (t.phase ≡ aborted e) × (t.next ≡ s.next)
unfolding step in_phase
aborted_step tls s t x e h q = ground arith

aborted_run :
    (tls : Bool) (s t : Run) (es : List Event) (e : String)
    → s.phase ≡ aborted e
    → run tls s es ≡ some t
    → (t.phase ≡ aborted e) × (t.next ≡ s.next)
aborted_run tls s t [] e h q =
    let same = run_nil tls s t q in (ap (λ r. r.phase) (sym same) ∙ h, ap (λ r. r.next) (sym same))
aborted_run tls s t (x ∷ es) e h q =
    let (u, f, g) = run_cons tls s t x es q in
    let (h', n) = aborted_step tls s u x e h f in
    let (h'', n') = aborted_run tls u t es e h' g in (h'', n' ∙ n)

failed_step :
    (tls : Bool) (s t : Run) (e : String)
    → s.phase ≡ handshaking
    → step tls s (handshake (err e)) ≡ some t
    → (t.phase ≡ aborted e) × (t.next ≡ s.next)
unfolding step in_phase
failed_step tls s t e h q = ground arith

-- One client's handshake that fails ends the server, whatever its other connections do: `run` has
-- returned the error, and no connection is accepted ever after.
pub failed_handshake_is_final :
    (tls : Bool) (s t : Run) (es : List Event) (e : String)
    → s.phase ≡ handshaking
    → run tls s (handshake (err e) ∷ es) ≡ some t
    → (t.phase ≡ aborted e) × (t.next ≡ s.next)
failed_handshake_is_final tls s t es e h q =
    let (u, f, g) = run_cons tls s t (handshake (err e)) es q in
    let (h', n) = failed_step tls s u e h f in
    let (h'', n') = aborted_run tls u t es e h' g in (h'', n' ∙ n)

-- Not the outcome of a handshake.
abbrev pub IsElsewhere : Event → Type 0
IsElsewhere (handshake r) = ⊥
IsElsewhere _ = Unit

deaf_step :
    (tls : Bool) (s t : Run) (x : Event)
    → s.phase ≡ handshaking
    → IsElsewhere x
    → step tls s x ≡ some t
    → (t.phase ≡ handshaking) × (t.next ≡ s.next)
unfolding step in_phase
deaf_step tls s t x h k q = ground arith

-- While a client's handshake goes on, the loop accepts no connection and does not break off, even
-- if the signal comes.
pub handshake_blocks :
    (tls : Bool) (s t : Run) (es : List Event)
    → s.phase ≡ handshaking
    → All IsElsewhere es
    → run tls s es ≡ some t
    → (t.phase ≡ handshaking) × (t.next ≡ s.next)
handshake_blocks tls s t [] h k q =
    let same = run_nil tls s t q in (ap (λ r. r.phase) (sym same) ∙ h, ap (λ r. r.next) (sym same))
handshake_blocks tls s t (x ∷ es) h k q =
    let (u, f, g) = run_cons tls s t x es q in
    let (h', n) = deaf_step tls s u x h k.0 f in
    let (h'', n') = handshake_blocks tls u t es h' k.1 g in (h'', n' ∙ n)
