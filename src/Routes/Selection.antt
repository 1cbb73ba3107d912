-- ===== src/Routes/Selection.antt =====
-- Which rows `list_apps` of server/src/routes.rs selects.
use spark_plug.Common.{
  String, ◌≡◌, ◌↔◌, refl, Bool, true, false, ◌&&◌, Option, none, some, List, [], ◌∷◌, arith, ◌==◌,
  string_eq, eq_iff, ◌≤ℤ◌, le_int_iff, In,
}
use spark_plug.Application.{State, state_eq, DateTime, Model}
use spark_plug.Routes.Api.{is_in, has_state, is_after, is_before, is_listed}

-- The states name the row's, or there are none; and the row was created within the bounds.
abbrev pub IsNamed : List State → State → Type 0
IsNamed [] s = Unit
IsNamed (t ∷ ts) s = In s (t ∷ ts)

abbrev pub IsFrom : Option DateTime → DateTime → Type 0
IsFrom none created_at = Unit
IsFrom (some t) created_at = t ≤ℤ created_at

abbrev pub IsUntil : Option DateTime → DateTime → Type 0
IsUntil none created_at = Unit
IsUntil (some t) created_at = created_at ≤ℤ t

pub record IsSelected (username : String) (states : List State) (after before : Option DateTime)
    (m : Model) : Type 0 where
  pub owner : m.username ≡ username
  pub named : IsNamed states m.state
  pub from : IsFrom after m.created_at
  pub until : IsUntil before m.created_at

state_eq_iff : (s t : State) → (state_eq s t ≡ true) ↔ (s ≡ t)
state_eq_iff s t = ground arith

is_in_iff : (ts : List State) (s : State) → (is_in ts s ≡ true) ↔ In s ts
is_in_iff [] s = ground arith
is_in_iff (t ∷ ts) s = ground (arith, state_eq_iff s t, is_in_iff ts s)

has_state_iff : (ts : List State) (m : Model) → (has_state ts m ≡ true) ↔ IsNamed ts m.state
has_state_iff [] m = (λ e. tt, λ h. refl)
has_state_iff (t ∷ ts) m = is_in_iff (t ∷ ts) m.state

is_after_iff : (o : Option DateTime) (m : Model) → (is_after o m ≡ true) ↔ IsFrom o m.created_at
is_after_iff none m = (λ e. tt, λ h. refl)
is_after_iff (some t) m = le_int_iff t m.created_at

is_before_iff : (o : Option DateTime) (m : Model) → (is_before o m ≡ true) ↔ IsUntil o m.created_at
is_before_iff none m = (λ e. tt, λ h. refl)
is_before_iff (some t) m = le_int_iff m.created_at t

and_iff : (a b : Bool) → ((a && b) ≡ true) ↔ ((a ≡ true) × (b ≡ true))
and_iff true b = ground arith
and_iff false b = ground arith

pub is_listed_iff :
    (username : String) (states : List State) (after before : Option DateTime) (m : Model)
    → (is_listed username states after before m ≡ true) ↔ IsSelected username states after before m
is_listed_iff username states after before m = (
  λ e.
      let (owner, rest) = (and_iff (m.username == username) _).0 e in
      let (named, times) = (and_iff (has_state states m) _).0 rest in
      let (from, until) = (and_iff (is_after after m) (is_before before m)).0 times in
      record {
        owner = (eq_iff m.username username).0 owner;
        named = (has_state_iff states m).0 named;
        from = (is_after_iff after m).0 from;
        until = (is_before_iff before m).0 until;
      },
  λ h. (and_iff (m.username == username) _).1 (
    (eq_iff m.username username).1 h.owner,
    (and_iff (has_state states m) _).1 (
      (has_state_iff states m).1 h.named,
      (and_iff (is_after after m) (is_before before m)).1
          ((is_after_iff after m).1 h.from, (is_before_iff before m).1 h.until),
    ),
  ),
)
