-- ===== src/Lifecycle/Active.antt =====
-- What the API's `active` field means (`get_app` and `list_apps` of server/src/routes.rs).
use spark_plug.Common.{
  ℤ, ◌≡◌, ◌↔◌, true, Option, arith, ok, All-In, ap, sym, ◌∙◌, string_eq, some, refl, [],
}
use spark_plug.Application.{
  State, Model, running, to_value, state_eq, try_from_value, try_from_value-to_value,
}
use spark_plug.Database.{Database}
use spark_plug.Auth.{UserId}
use spark_plug.Routes.Api.{AppState, World, ApplicationInfo, info}
use spark_plug.Routes.{get_app}
use spark_plug.Routes.Owner.{get_app-IsOwned}
use spark_plug.Lifecycle.Rows.{IsSettled}
use spark_plug.Lifecycle.Reach.{Reach, Reach-IsValid}

value_running : (s : State) → state_eq s running ≡ true → to_value s ≡ "RUNNING"
unfolding to_value
value_running s e = ground arith

running_of_value : (s : State) → to_value s ≡ "RUNNING" → s ≡ running
running_of_value s e =
    let q : ◌≡◌ {A = Option State} (some s) (some running) =
      sym (try_from_value-to_value s)
      ∙ ap try_from_value (e ∙ sym (value_running running refl))
      ∙ try_from_value-to_value running in
    cc q

state_eq_running : (s : State) → (state_eq s running ≡ true) ↔ (to_value s ≡ "RUNNING")
state_eq_running s = (value_running s, λ e. rw (running_of_value s e) refl)

module _ (s : AppState) (m : Model) (h : IsSettled m) where
  info_active : ((info s m).active ≡ true) ↔ ((info s m).state ≡ "RUNNING")
  unfolding info
  info_active = (
    λ e. (state_eq_running m.state).0 (sym h.addressed ∙ e),
    λ e. h.addressed ∙ (state_eq_running m.state).1 e,
  )

-- Since the table was empty, an application that `get_app` answers is active exactly if its state
-- is "RUNNING".
pub get_app_active :
    (D : Database) (s : AppState) (app_id : ℤ) (user : UserId) (w v : World D) (i : ApplicationInfo)
    → D.rows w.db ≡ []
    → Reach D w v
    → (get_app D s app_id user v).0 ≡ ok i
    → (i.active ≡ true) ↔ (i.state ≡ "RUNNING")
get_app_active D s app_id user w v i empty r e =
    let (m, owned, same) = get_app-IsOwned D s app_id user v i e in
    let valid = Reach-IsValid D w v r (rw empty (record { settled = tt; unique = tt })) in
    let settled = All-In IsSettled (D.rows v.db) valid.settled owned.listed in
    rw same (info_active s m settled)
