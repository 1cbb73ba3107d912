-- ===== src/Lifecycle/Rows.antt =====
-- What each change of the table does to a property of its rows: the statements of the database,
-- and the row invariant of the lifecycle.
use spark_plug.Common.{
  String, ◌≡◌, ◌≢◌, refl, Bool, Bool-cases, if◌then◌else◌, map_where, keep, true, false, Option,
  List, [], ◌∷◌, arith, is_some, All, All-map_where, All-keep, inl, inr, sym, ◌∙◌, string_eq,
  int_eq, nat_eq,
}
use spark_plug.Application.{Model, State, launching, running, state_eq}
use spark_plug.Database.{NewModel, IsInserted}
use spark_plug.Proxy.Upstream.{mark_failed}
use spark_plug.Routes.Api.{ApplicationCallbackRequest, set_failed, set_finished, set_running}

-- A row has an address exactly if it is RUNNING.
pub record IsSettled (m : Model) : Type 0 where
  pub addressed : is_some m.address ≡ state_eq m.state running

pub set_finished-IsSettled : (m : Model) → IsSettled (set_finished m)
set_finished-IsSettled m = record { addressed = refl }

pub mark_failed-IsSettled : (m : Model) → IsSettled (mark_failed m)
mark_failed-IsSettled m = record { addressed = refl }

pub set_running-IsSettled :
    (params : ApplicationCallbackRequest) (m : Model) → IsSettled (set_running params m)
set_running-IsSettled params m = record { addressed = refl }

-- Only a row that is LAUNCHING may fail with its address kept: it has none.
pub set_failed-IsSettled :
    (m : Model) → IsSettled m → state_eq m.state launching ≡ true → IsSettled (set_failed m)
set_failed-IsSettled m h e = record { addressed = go m.state m.address h.addressed e }
  where
    go :
        (s : State) (a : Option String)
        → is_some a ≡ state_eq s running
        → state_eq s launching ≡ true
        → is_some a ≡ false
    go s a h e = ground arith

pub inserted-IsSettled :
    (new : NewModel) (m : Model)
    → new.state ≡ launching
    → IsInserted new m
    → IsSettled m × IsSettled (set_failed m)
inserted-IsSettled new m e h = (
  record { addressed = rw (h.address, h.state, e) refl },
  record { addressed = rw h.address refl },
)

-- No two rows have the same key.
module _ {K : Type 0} (key : Model → K) where
  abbrev pub HasUnique : List Model → Type 0
  HasUnique [] = Unit
  HasUnique (m ∷ ms) = All (λ r. key r ≢ key m) ms × HasUnique ms

  key_map_where :
      (p : Model → Bool) (f : Model → Model) (m : Model)
      → ((r : Model) → key (f r) ≡ key r)
      → key (if p m then f m else m) ≡ key m
  key_map_where p f m same = elim (Bool-cases (p m)) [ inl e ↦ rw e (same m) | inr e ↦ rw e refl ]

  pub map_where-HasUnique :
      (p : Model → Bool) (f : Model → Model) (ms : List Model)
      → ((r : Model) → key (f r) ≡ key r)
      → HasUnique ms
      → HasUnique (map_where p f ms)
  map_where-HasUnique p f [] same h = tt
  map_where-HasUnique p f (m ∷ ms) same h = (
    All-map_where (λ r. key r ≢ key (if p m then f m else m)) p f ms
        (λ r d e q. d (sym (same r) ∙ q)) (rw (key_map_where p f m same) h.0),
    map_where-HasUnique p f ms same h.1,
  )

  pub keep-HasUnique : (p : Model → Bool) (ms : List Model) → HasUnique ms → HasUnique (keep p ms)
  keep-HasUnique p [] h = tt
  keep-HasUnique p (m ∷ ms) h = go (p m) (keep-HasUnique p ms h.1)
    where
      go : (b : Bool) → HasUnique (keep p ms) → HasUnique (if b then m ∷ keep p ms else keep p ms)
      go true ih = (All-keep (λ r. key r ≢ key m) p ms h.0, ih)
      go false ih = ih

abbrev pub HasUniqueIds : List Model → Type 0
HasUniqueIds = HasUnique (λ m. m.id)

-- The table: every row is settled, and no two rows have the same id.
pub record IsValid (rows : List Model) : Type 0 where
  pub settled : All IsSettled rows
  pub unique : HasUniqueIds rows

pub map_where-IsValid :
    (p : Model → Bool) (f : Model → Model) (rows : List Model)
    → ((m : Model) → (f m).id ≡ m.id)
    → ((m : Model) → IsSettled m → p m ≡ true → IsSettled (f m))
    → IsValid rows
    → IsValid (map_where p f rows)
map_where-IsValid p f rows same step h = record {
  settled = All-map_where IsSettled p f rows step h.settled;
  unique = map_where-HasUnique (λ m. m.id) p f rows same h.unique;
}

pub keep-IsValid : (p : Model → Bool) (rows : List Model) → IsValid rows → IsValid (keep p rows)
keep-IsValid p rows h = record {
  settled = All-keep IsSettled p rows h.settled;
  unique = keep-HasUnique (λ m. m.id) p rows h.unique;
}
