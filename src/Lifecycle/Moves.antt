-- ===== src/Lifecycle/Moves.antt =====
-- The changes of rows, seen in the view of the registry.
use mathlib.Core.Path.{subst}
use spark_plug.Common.{
  ℤ, String, ◌≡◌, ◌≢◌, refl, Bool, true, false, not, ◌||◌, Option, none, some, List, [], ◌∷◌, arith,
  All, All-keep, keep, map_where, Bool-cases, inl, inr, int_eq, eq_iff,
}
use spark_plug.Application.{Model, State, launching, running, failed, finished, state_eq, DateTime}
use spark_plug.Database.{NewModel, IsInserted, has_id}
use spark_plug.Proxy.Upstream.{mark_failed}
use spark_plug.Routes.Api.{ApplicationCallbackRequest, set_failed, set_finished, set_running}
use spark_plug.Server.{is_pruned}
use spark_plug.Lifecycle.Rows.{HasUniqueIds}
use spark_plug.Lifecycle.Registry.{
  starting, active, ended, broken, IsOver, Continues, session_of, phase_of, view, ◌↝◌, ◌⟶◌,
  same_session, no_change,
}

-- A change of a row is one of its session.
abbrev pub Moves : (Model → Model) → Type 0
Moves f = (m : Model) → Continues (session_of m) (session_of (f m))

ended-ne-starting : ended ≢ starting
ended-ne-starting e = cc

broken-ne-starting : broken ≢ starting
broken-ne-starting e = cc

active-ne-starting : (a : String) → active a ≢ starting
active-ne-starting a e = cc

pub set_finished-Moves : Moves set_finished
set_finished-Moves m = record {
  owner = refl;
  name = refl;
  token = refl;
  phase = inr ended-ne-starting;
}

pub set_failed-Moves : Moves set_failed
set_failed-Moves m = record {
  owner = refl;
  name = refl;
  token = refl;
  phase = inr broken-ne-starting;
}

pub mark_failed-Moves : Moves mark_failed
mark_failed-Moves m = record {
  owner = refl;
  name = refl;
  token = refl;
  phase = inr broken-ne-starting;
}

pub set_running-Moves : (params : ApplicationCallbackRequest) → Moves (set_running params)
set_running-Moves params m = record {
  owner = refl;
  name = refl;
  token = refl;
  phase = inr (active-ne-starting params.address);
}

pub born_of_new :
    (new : NewModel) (m : Model)
    → new.state ≡ launching
    → IsInserted new m
    → none ⟶ some (session_of m)
born_of_new new m e h = inl (rw (h.state, e) refl)

pub stillborn_of_new : (m : Model) → none ⟶ some (session_of (set_failed m))
stillborn_of_new m = inr refl

IsOver-phase :
    (s : State) (a : Option String)
    → (state_eq s failed || state_eq s finished) ≡ true
    → IsOver (phase_of s a)
IsOver-phase failed a e = tt
IsOver-phase finished a e = tt
IsOver-phase launching a e = cc
IsOver-phase running a e = cc

-- Only a row that is over is pruned.
pub pruned_over :
    (cutoff : DateTime) (m : Model) → not (is_pruned cutoff m) ≡ false → some (session_of m) ⟶ none
pruned_over cutoff m e = IsOver-phase m.state m.address (ground arith)

pub view_map_where :
    (p : Model → Bool) (f : Model → Model) (rows : List Model)
    → ((m : Model) → (f m).id ≡ m.id)
    → Moves f
    → (i : ℤ) → view rows i ↝ view (map_where p f rows) i
view_map_where p f [] same moves i = tt
view_map_where p f (m ∷ rows) same moves i =
    let ih = view_map_where p f rows same moves i in
    elim (Bool-cases (p m)) [
      | inl t ↦ elim (Bool-cases (has_id i m)) [
        | inl e ↦ rw t (rw (same m) (rw e (moves m)))
        | inr e ↦ rw t (rw (same m) (rw e ih))
      ]
      | inr t ↦ elim (Bool-cases (has_id i m)) [
        | inl e ↦ rw t (rw e (same_session (some (session_of m))))
        | inr e ↦ rw t (rw e ih)
      ]
    ]

view_absent : (rows : List Model) (i : ℤ) → All (λ r. r.id ≢ i) rows → view rows i ≡ none
view_absent [] i h = refl
view_absent (m ∷ rows) i h =
    let other : has_id i m ≡ false = ground (arith, h.0, eq_iff m.id i) in
    rw other (view_absent rows i h.1)

pub view_cons :
    (m : Model) (rows : List Model)
    → All (λ r. r.id ≢ m.id) rows
    → none ⟶ some (session_of m)
    → (i : ℤ) → view rows i ⟶ view (m ∷ rows) i
view_cons m rows fresh e i = elim (Bool-cases (has_id i m)) [
  | inl t ↦
      let same : m.id ≡ i = (eq_iff m.id i).0 t in
      rw t (rw (view_absent rows i (subst (λ j. All (λ r. r.id ≢ j) rows) same fresh)) e)
  | inr t ↦ rw t (no_change (view rows i))
]

pub view_keep :
    (p : Model → Bool) (rows : List Model)
    → HasUniqueIds rows
    → ((m : Model) → p m ≡ false → some (session_of m) ⟶ none)
    → (i : ℤ) → view rows i ⟶ view (keep p rows) i
view_keep p [] h over i = tt
view_keep p (m ∷ rows) h over i =
    let ih = view_keep p rows h.1 over i in
    elim (Bool-cases (has_id i m)) [
      | inr t ↦ elim (Bool-cases (p m)) [ inl e ↦ rw e (rw t ih) | inr e ↦ rw e (rw t ih) ]
      | inl t ↦ elim (Bool-cases (p m)) [
        | inl e ↦ rw e (rw t (no_change (some (session_of m))))
        | inr e ↦
            let same : m.id ≡ i = (eq_iff m.id i).0 t in
            let fresh = subst (λ j. All (λ r. r.id ≢ j) rows) same h.0 in
            rw e (
              rw t (
                rw (view_absent (keep p rows) i (All-keep (λ r. r.id ≢ i) p rows fresh))
                  (over m e)))
      ]
    ]
