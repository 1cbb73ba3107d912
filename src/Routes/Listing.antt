-- ===== src/Routes/Listing.antt =====
-- Listing applications: `list_apps` of server/src/routes.rs.
use mathlib.Core.Path.{subst}
use mathlib.Core.List.{Perm}
use mathlib.Core.List.Perm
use spark_plug.Common.{
  Bool, true, String, ◌≡◌, ◌≢◌, ◌↔◌, refl, none, some, List, [], ◌∷◌, map, arith, ◌==◌, string_eq,
  eq_iff, Result, ok, err, keep, Any, inl, inr, Result-cases, Option-cases, Bool-cases, ap,
  ok-ne-err, none-ne-some, sym, ◌∙◌,
}
use spark_plug.Text.{split, trim}
use spark_plug.Application.{
  State, Model, to_value, try_from_value, try_from_value-to_value, to_value_of_try_from_value,
}
use spark_plug.Database.{Database, DbResult}
use spark_plug.Http.{Status, bad_request}
use spark_plug.Auth.{UserId}
use spark_plug.Routes.Api.{
  AppState, World, ListApplicationsRequest, ApplicationInfo, info, state_filter, parse_states,
  is_listed,
}
use spark_plug.Routes.Selection.{IsSelected, is_listed_iff}
use spark_plug.Routes.{list_apps}

-- A piece of the state filter that is not blank and names no state.
abbrev pub IsBadPiece : String → Type 0
IsBadPiece piece = (trim piece ≢ "") × ((s : State) → trim piece ≢ to_value s)

no_state_iff : (t : String) → (try_from_value t ≡ none) ↔ ((s : State) → t ≢ to_value s)
no_state_iff t = (
  λ e s q. absurd (none-ne-some (sym e ∙ ap try_from_value q ∙ try_from_value-to_value s)),
  λ h. elim (Option-cases (try_from_value t)) [
    | inl e ↦ e
    | inr (s, e) ↦ absurd (h s (to_value_of_try_from_value t s e))
  ],
)

-- One round of the loop.
pub parse_blank :
    (p : String) (ps : List String) → trim p ≡ "" → parse_states (p ∷ ps) ≡ parse_states ps
parse_blank p ps h = unfold parse_states in ground (arith, eq_iff (trim p) "")

pub parse_unknown :
    (p : String) (ps : List String)
    → trim p ≢ ""
    → try_from_value (trim p) ≡ none
    → parse_states (p ∷ ps) ≡ err bad_request
parse_unknown p ps h e = unfold parse_states in ground (arith, eq_iff (trim p) "")

abbrev pub consed : State → Result Status (List State) → Result Status (List State)
consed s (ok states) = ok (s ∷ states)
consed s (err e) = err e

pub parse_known :
    (p : String) (ps : List String) (s : State)
    → trim p ≢ ""
    → try_from_value (trim p) ≡ some s
    → parse_states (p ∷ ps) ≡ consed s (parse_states ps)
parse_known p ps s h e = unfold parse_states in ground (arith, eq_iff (trim p) "")

consed_err :
    (s : State) (r : Result Status (List State))
    → consed s r ≡ err bad_request
    → r ≡ err bad_request
consed_err s (ok ss) e = cc
consed_err s (err x) e = e

module _ (p : String) (ps : List String) where
  parse_bad_sound :
      (parse_states ps ≡ err bad_request → Any IsBadPiece ps)
      → parse_states (p ∷ ps) ≡ err bad_request
      → Any IsBadPiece (p ∷ ps)
  parse_bad_sound ih e = elim (Bool-cases (trim p == "")) [
    | inl blank ↦ inr (ih (sym (parse_blank p ps ((eq_iff (trim p) "").0 blank)) ∙ e))
    | inr filled ↦
        let full : trim p ≢ "" = ground (arith, eq_iff (trim p) "") in
        elim (Option-cases (try_from_value (trim p))) [
          | inl unknown ↦ inl (full, (no_state_iff (trim p)).0 unknown)
          | inr (s, known) ↦
              inr (ih (consed_err s (parse_states ps) (sym (parse_known p ps s full known) ∙ e)))
        ]
  ]

  parse_bad_later : parse_states ps ≡ err bad_request → parse_states (p ∷ ps) ≡ err bad_request
  parse_bad_later e = elim (Bool-cases (trim p == "")) [
    | inl blank ↦ parse_blank p ps ((eq_iff (trim p) "").0 blank) ∙ e
    | inr filled ↦
        let full : trim p ≢ "" = ground (arith, eq_iff (trim p) "") in
        elim (Option-cases (try_from_value (trim p))) [
          | inl unknown ↦ parse_unknown p ps full unknown
          | inr (s, known) ↦ parse_known p ps s full known ∙ ap (consed s) e
        ]
  ]

parse_sound : (ps : List String) → parse_states ps ≡ err bad_request → Any IsBadPiece ps
parse_sound [] e = absurd (unfold parse_states in ok-ne-err e)
parse_sound (p ∷ ps) e = parse_bad_sound p ps (parse_sound ps) e

parse_complete : (ps : List String) → Any IsBadPiece ps → parse_states ps ≡ err bad_request
parse_complete [] h = absurd h
parse_complete (p ∷ ps) (inl (full, unknown)) =
    parse_unknown p ps full ((no_state_iff (trim p)).1 unknown)
parse_complete (p ∷ ps) (inr h) = parse_bad_later p ps (parse_complete ps h)

module _ (D : Database) (s : AppState) (user : UserId) (params : ListApplicationsRequest)
    (w : World D) where
  abbrev apps : List State → DbResult (List Model)
  apps states =
      D.find_all (is_listed user.name states params.created_at_after params.created_at_before) w.db

  abbrev kept : List State → List Model
  kept states =
      keep (is_listed user.name states params.created_at_after params.created_at_before)
        (D.rows w.db)

  listed_of :
      (states : List State) (infos : List ApplicationInfo) (ms : List Model)
      → map (info s) ms ≡ infos
      → Perm ms (kept states)
      → Perm infos (map (info s) (kept states))
  listed_of states infos ms same h =
      subst (λ l. Perm l (map (info s) (kept states))) same (Perm.map (info s) h)

  refused_of :
      (list_apps D s user params w).0 ≡ err bad_request
      → state_filter params.state ≡ err bad_request
  unfolding list_apps
  refused_of e = elim (Result-cases (state_filter params.state)) [
    | inr (x, f) ↦ ground arith
    | inl (states, f) ↦ elim (Result-cases (apps states)) [
      | inr (x, g) ↦ absurd (ground arith)
      | inl (ms, g) ↦ absurd (ground arith)
    ]
  ]

  refused_by :
      state_filter params.state ≡ err bad_request
      → (list_apps D s user params w).0 ≡ err bad_request
  unfolding list_apps
  refused_by f = ground arith

  -- A list that is answered is, in some order, the rows of the user whose state is one of those that
  -- the filter is parsed to (any state where there are none) and that were created within the bounds.
  pub list_apps_listed :
      (infos : List ApplicationInfo)
      → (list_apps D s user params w).0 ≡ ok infos
      → (states : List State) × (state_filter params.state ≡ ok states)
        × (selected : Model → Bool) × ((m : Model)
            → (selected m ≡ true)
              ↔ IsSelected user.name states params.created_at_after params.created_at_before m)
        × Perm infos (map (info s) (keep selected (D.rows w.db)))
  unfolding list_apps
  list_apps_listed infos e = elim (Result-cases (state_filter params.state)) [
    | inr (x, f) ↦ absurd (ground arith)
    | inl (states, f) ↦ elim (Result-cases (apps states)) [
      | inr (x, g) ↦ absurd (ground arith)
      | inl (ms, g) ↦
          let same : map (info s) ms ≡ infos = ground arith in
          (
            states,
            f,
            is_listed user.name states params.created_at_after params.created_at_before,
            is_listed_iff user.name states params.created_at_after params.created_at_before,
            listed_of states infos ms same (
                D.find_all_ok
                  (is_listed user.name states params.created_at_after params.created_at_before) w.db
                  ms g),
          )
    ]
  ]

  filter_of :
      (filter : String)
      → params.state ≡ some filter
      → parse_states (split b',' filter) ≡ state_filter params.state
  filter_of filter given = rw given (unfold state_filter in refl)

  -- A list is refused with 400 exactly when the state filter has a piece that is neither blank nor
  -- the name of a state.
  pub list_apps_bad_request_iff :
      (filter : String)
      → params.state ≡ some filter
      → ((list_apps D s user params w).0 ≡ err bad_request) ↔ Any IsBadPiece (split b',' filter)
  list_apps_bad_request_iff filter given = (
    λ e. parse_sound (split b',' filter) (filter_of filter given ∙ refused_of e),
    λ h. refused_by (sym (filter_of filter given) ∙ parse_complete (split b',' filter) h),
  )
