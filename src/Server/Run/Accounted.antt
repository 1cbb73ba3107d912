-- ===== src/Server/Run/Accounted.antt =====
-- What has happened when `run` of server/src/lib.rs returns, told by the events alone.
use mathlib.Core.Path.{subst}
use spark_plug.Common.{
  ℕ, zero, suc, ◌+◌, ◌≤◌, ◌<◌, ◌≡◌, refl, Bool, true, false, not, some, List, [], ◌∷◌, nat_eq,
  eq_refl, eq_iff, arith, ◌==◌, keep, map_where, ok, err, Any, All, le-cases, inl, inr, ◌⊎◌, ap,
  sym, ◌∙◌, Bool-cases,
}
use spark_plug.Server.Run.{
  stopped, Connection, Run, Event, signal, incoming, accept_error, handshake, broken_off, graceful,
  ended, all_ended, start, is_id, is_untold, tell, any, in_phase, step, run,
}
use spark_plug.Server.Run.Orderly.{IsOrderly, step-IsOrderly, run-IsOrderly, run_cons, run_nil}

-- How many connections an event accepts: a stream without TLS, or a handshake that succeeds.
abbrev pub accepts : Bool → Event → ℕ
accepts false incoming = 1
accepts tls (handshake (ok u)) = 1
accepts tls e = 0

abbrev pub accepted : Bool → List Event → ℕ
accepted tls [] = 0
accepted tls (e ∷ es) = accepts tls e + accepted tls es

abbrev holds : ℕ → Run → Bool
holds i s = any (is_id i) s.connections

any-tell :
    (i j : ℕ) (cs : List Connection)
    → any (is_id i) (map_where (is_untold j) tell cs) ≡ any (is_id i) cs
any-tell i j [] = refl
any-tell i j (c ∷ cs) = ground (arith, any-tell i j cs)

any-keep :
    (i j : ℕ) (cs : List Connection)
    → (i == j) ≡ false
    → any (is_id i) (keep (λ c. not (is_id j c)) cs) ≡ any (is_id i) cs
any-keep i j [] h = refl
any-keep i j (c ∷ cs) h =
    ground (arith, any-keep i j cs h, eq_iff c.id i, eq_iff c.id j, eq_iff i j)

-- A task goes on until it ends.
held_step :
    (tls : Bool) (s t : Run) (e : Event) (i : ℕ)
    → step tls s e ≡ some t
    → holds i s ≡ true
    → (e ≡ ended i) ⊎ (holds i t ≡ true)
unfolding step in_phase
held_step tls s t signal i q h = inr (ground arith)
held_step tls s t (graceful j) i q h = inr (ground (arith, any-tell i j s.connections))
held_step tls s t (ended j) i q h = elim (Bool-cases (i == j)) [
  | inl e ↦ inl (ap ended (sym ((eq_iff i j).0 e)))
  | inr e ↦ inr (ground (arith, any-keep i j s.connections e))
]
held_step tls s t incoming i q h = inr (ground arith)
held_step tls s t (accept_error x) i q h = inr (ground arith)
held_step tls s t broken_off i q h = inr (ground arith)
held_step tls s t all_ended i q h = inr (ground arith)
held_step tls s t (handshake r) i q h = inr (ground arith)

-- The tasks are numbered as they are accepted.
accepted_step :
    (tls : Bool) (s t : Run) (e : Event)
    → step tls s e ≡ some t
    → (t.next ≡ accepts tls e + s.next) × ((accepts tls e ≡ 0) ⊎ (holds s.next t ≡ true))
unfolding step in_phase
accepted_step tls s t signal q = ground arith
accepted_step tls s t (graceful j) q = ground arith
accepted_step tls s t (ended j) q = ground arith
accepted_step true s t incoming q = ground arith
accepted_step false s t incoming q = ground (arith, eq_refl s.next)
accepted_step tls s t (accept_error x) q = ground arith
accepted_step tls s t broken_off q = ground arith
accepted_step tls s t all_ended q = ground arith
accepted_step tls s t (handshake (ok u)) q = ground (arith, eq_refl s.next)
accepted_step tls s t (handshake (err x)) q = ground arith

accepts-le : (tls : Bool) (e : Event) → accepts tls e ≤ 1
accepts-le tls e = ground arith

signalled_step :
    (tls : Bool) (s t : Run) (e : Event)
    → step tls s e ≡ some t
    → s.signalled ≡ false
    → (e ≡ signal) ⊎ (t.signalled ≡ false)
unfolding step in_phase
signalled_step tls s t signal q h = inl refl
signalled_step tls s t (graceful j) q h = inr (ground arith)
signalled_step tls s t (ended j) q h = inr (ground arith)
signalled_step tls s t incoming q h = inr (ground arith)
signalled_step tls s t (accept_error x) q h = inr (ground arith)
signalled_step tls s t broken_off q h = inr (ground arith)
signalled_step tls s t all_ended q h = inr (ground arith)
signalled_step tls s t (handshake r) q h = inr (ground arith)

signalled_run :
    (tls : Bool) (s t : Run) (es : List Event)
    → run tls s es ≡ some t
    → s.signalled ≡ false
    → t.signalled ≡ true
    → Any (λ e. e ≡ signal) es
signalled_run tls s t [] q h k = absurd (ground (arith, ap (λ r. r.signalled) (run_nil tls s t q)))
signalled_run tls s t (e ∷ es) q h k =
    let (u, f, g) = run_cons tls s t e es q in
    elim (signalled_step tls s u e f h) [
      | inl p ↦ inl p
      | inr n ↦ inr (signalled_run tls u t es g n k)
    ]

-- A task that goes on ends before `run` returns.
held_run :
    (tls : Bool) (s t : Run) (es : List Event) (i : ℕ)
    → IsOrderly s
    → run tls s es ≡ some t
    → t.phase ≡ stopped
    → holds i s ≡ true
    → Any (λ e. e ≡ ended i) es
held_run tls s t [] i o q p h =
    let same = run_nil tls s t q in absurd (ground (arith, (o.over (ap (λ r. r.phase) same ∙ p)).1))
held_run tls s t (e ∷ es) i o q p h =
    let (u, f, g) = run_cons tls s t e es q in
    elim (held_step tls s u e i f h) [
      | inl same ↦ inl same
      | inr k ↦ inr (held_run tls u t es i (step-IsOrderly tls s u e o f) g p k)
    ]

accepted_run :
    (tls : Bool) (s t : Run) (es : List Event) (i : ℕ)
    → IsOrderly s
    → run tls s es ≡ some t
    → t.phase ≡ stopped
    → s.next ≤ i
    → i < s.next + accepted tls es
    → Any (λ e. e ≡ ended i) es
accepted_run tls s t [] i o q p l m = absurd (omega arith)
accepted_run tls s t (e ∷ es) i o q p l m =
    let (u, f, g) = run_cons tls s t e es q in
    let (n, held) = accepted_step tls s u e f in
    let o' = step-IsOrderly tls s u e o f in
    elim (le-cases s.next i l) [
      | inr later ↦
          inr (
            accepted_run tls u t es i o' g p (omega (arith, n, accepts-le tls e))
              (omega (arith, n)))
      | inl same ↦ elim held [
        | inl unmoved ↦ inr (accepted_run tls u t es i o' g p (omega (arith, n)) (omega (arith, n)))
        | inr k ↦ inr (held_run tls u t es i o' g p (subst (λ j. holds j u ≡ true) same k))
      ]
    ]

-- The numbers of the first `n` connections.
abbrev pub numbers : ℕ → List ℕ
numbers zero = []
numbers (suc n) = n ∷ numbers n

All-numbers : (P : ℕ → Type 0) (n : ℕ) → ((i : ℕ) → i < n → P i) → All P (numbers n)
All-numbers P zero h = tt
All-numbers P (suc n) h = (h n (omega arith), All-numbers P n (λ i l. h i (omega arith)))

start-IsOrderly : IsOrderly start
start-IsOrderly = record { left = λ e. cc; over = λ e. cc }

-- When `run` returns without an error, whatever the order of the events since the start, the
-- shutdown signal has come, and every connection that was accepted, numbered from 0, has ended.
pub stopped_accounts :
    (tls : Bool) (t : Run) (es : List Event)
    → run tls start es ≡ some t
    → t.phase ≡ stopped
    → Any (λ e. e ≡ signal) es × All (λ i. Any (λ e. e ≡ ended i) es) (numbers (accepted tls es))
stopped_accounts tls t es q p = (
  signalled_run tls start t es q refl ((run-IsOrderly tls start t es start-IsOrderly q).over p).0,
  All-numbers (λ i. Any (λ e. e ≡ ended i) es) (accepted tls es)
      (λ i l. accepted_run tls start t es i start-IsOrderly q p (omega arith) (omega arith)),
)
