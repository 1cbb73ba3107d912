-- ===== src/Lifecycle/Registry.antt =====
-- The abstract view of the application table: by id, whose session it is, under which token, and in
-- which phase; and the changes that a session may undergo. The view forgets the order of the
-- rows, their times and what Spark calls them.
use spark_plug.Common.{
  ℤ, String, ◌≡◌, ◌≢◌, refl, ◌⊎◌, inl, inr, sym, ◌∙◌, Option, none, some, List, find, int_eq,
}
use mathlib.Core.Option
use spark_plug.Application.{Model, State, launching, running, failed, finished}
use spark_plug.Database.{has_id}

pub data Phase : Type 0 where
  starting : Phase
  active : String → Phase
  ended : Phase
  broken : Phase

pub record Session : Type 0 where
  pub owner : String
  pub name : Option String
  pub token : String
  pub phase : Phase

abbrev pub phase_of : State → Option String → Phase
phase_of launching a = starting
phase_of running (some a) = active a
phase_of running none = broken
phase_of finished a = ended
phase_of failed a = broken

abbrev pub session_of : Model → Session
session_of m = record {
  owner = m.username;
  name = m.name;
  token = m.token;
  phase = phase_of m.state m.address;
}

abbrev pub View : Type 0
View = ℤ → Option Session

abbrev pub view : List Model → View
view rows i = Option.map session_of (find (has_id i) rows)

-- A session that is over may be forgotten.
abbrev pub IsOver : Phase → Type 0
IsOver ended = Unit
IsOver broken = Unit
IsOver _ = ⊥

-- What one change may do to a session that stays: it keeps its owner, its name and its token, and
-- does not start again.
pub record Continues (s t : Session) : Type 0 where
  pub owner : t.owner ≡ s.owner
  pub name : t.name ≡ s.name
  pub token : t.token ≡ s.token
  pub phase : (t.phase ≡ s.phase) ⊎ (t.phase ≢ starting)

-- A change that neither adds a session nor forgets one.
infix 40 ◌↝◌ ◌⟶◌
abbrev pub ◌↝◌ : Option Session → Option Session → Type 0
none ↝ none = Unit
some s ↝ some t = Continues s t
_ ↝ _ = ⊥

-- One change of the place of an id: a session may be born there, starting or broken at once, and one
-- that is over may be forgotten.
abbrev pub ◌⟶◌ : Option Session → Option Session → Type 0
none ⟶ none = Unit
none ⟶ some t = (t.phase ≡ starting) ⊎ (t.phase ≡ broken)
some s ⟶ some t = Continues s t
some s ⟶ none = IsOver s.phase

pub same_session : (a : Option Session) → a ↝ a
same_session none = tt
same_session (some s) = record { owner = refl; name = refl; token = refl; phase = inl refl }

pub change_of_kept : (a b : Option Session) → a ↝ b → a ⟶ b
change_of_kept none none h = tt
change_of_kept (some s) (some t) h = h
change_of_kept none (some t) h = absurd h
change_of_kept (some s) none h = absurd h

pub no_change : (a : Option Session) → a ⟶ a
no_change a = change_of_kept a a (same_session a)

later_phase :
    {p q r : Phase} → (q ≡ p) ⊎ (q ≢ starting) → (r ≡ q) ⊎ (r ≢ starting) → (r ≡ p) ⊎ (r ≢ starting)
later_phase (inl e) (inl f) = inl (f ∙ e)
later_phase (inr n) (inl f) = inr (λ g. n (sym f ∙ g))
later_phase h (inr n) = inr n

pub trans : (a b c : Option Session) → a ↝ b → b ↝ c → a ↝ c
trans none none none h k = tt
trans none none (some u) h k = absurd k
trans none (some t) c h k = absurd h
trans (some s) none c h k = absurd h
trans (some s) (some t) none h k = absurd k
trans (some s) (some t) (some u) h k = record {
  owner = k.owner ∙ h.owner;
  name = k.name ∙ h.name;
  token = k.token ∙ h.token;
  phase = later_phase h.phase k.phase;
}
