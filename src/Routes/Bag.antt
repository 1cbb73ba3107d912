-- ===== src/Routes/Bag.antt =====
-- `list_apps` of server/src/routes.rs over the application table as a multiset of rows, which is
-- what SQL has: the order in which a database keeps or finds rows is forgotten.
use mathlib.Core.List.{filter}
use mathlib.Core.Logic.{ite}
use mathlib.Core.Bool.{false≢true}
use mathlib.Mathlib.Data.Multiset.Defs.{of_list, coe-eq-coe}
use mathlib.Mathlib.Data.Multiset.MapFold.{map as bag_map}
use mathlib.Mathlib.Data.Multiset.Filter.{filter as bag_filter}
use spark_plug.Common.{
  Bool, true, false, ◌≡◌, ◌↔◌, refl, List, [], ◌∷◌, keep, map, if◌then◌else◌, ok, ap, ◌∙◌,
}
use spark_plug.Application.{State, Model}
use spark_plug.Database.{Database}
use spark_plug.Auth.{UserId}
use spark_plug.Routes.Api.{
  AppState, World, ListApplicationsRequest, ApplicationInfo, info, state_filter,
}
use spark_plug.Routes.Selection.{IsSelected, IsFrom, IsUntil}
use spark_plug.Routes.Named.{Admits, IsNamed-Admits}
use spark_plug.Routes.Listing.{list_apps_listed}
use spark_plug.Routes.{list_apps}

-- The decision of a property that a test finds.
pub decide_by : {P : Type 0} (b : Bool) → (b ≡ true) ↔ P → Dec P
decide_by true iff = yes (iff.0 refl)
decide_by false iff = no (λ h. absurd (false≢true (iff.1 h)))

same_choice :
    {P : Type 0} (b : Bool) (d : Dec P) (x y : List Model)
    → (b ≡ true) ↔ P
    → (if b then x else y) ≡ ite d x y
same_choice true (yes h) x y iff = refl
same_choice true (no n) x y iff = absurd (n (iff.0 refl))
same_choice false (yes h) x y iff = absurd (false≢true (iff.1 h))
same_choice false (no n) x y iff = refl

filter-keep :
    {P : Model → Type 0} (d : (m : Model) → Dec (P m)) (p : Model → Bool)
    → ((m : Model) → (p m ≡ true) ↔ P m)
    → (ms : List Model) → keep p ms ≡ filter d ms
filter-keep d p iff [] = refl
filter-keep d p iff (m ∷ ms) =
    rw (filter-keep d p iff ms) (same_choice (p m) (d m) (m ∷ filter d ms) (filter d ms) (iff m))

module _ (D : Database) (s : AppState) (user : UserId) (params : ListApplicationsRequest)
    (w : World D) where
  -- An application that is asked for: one of the user whose state the filter's text admits, created
  -- within the bounds.
  pub record IsAsked (m : Model) : Type 0 where
    pub owner : m.username ≡ user.name
    pub admitted : Admits params.state m.state
    pub from : IsFrom params.created_at_after m.created_at
    pub until : IsUntil params.created_at_before m.created_at

  pub IsAsked_iff :
      (states : List State) (m : Model)
      → state_filter params.state ≡ ok states
      → IsSelected user.name states params.created_at_after params.created_at_before m ↔ IsAsked m
  IsAsked_iff states m e = (
    λ h. record {
      owner = h.owner;
      admitted = (IsNamed-Admits params.state states m.state e).0 h.named;
      from = h.from;
      until = h.until;
    },
    λ h. record {
      owner = h.owner;
      named = (IsNamed-Admits params.state states m.state e).1 h.admitted;
      from = h.from;
      until = h.until;
    },
  )

  -- A list that is answered is, as a multiset, the descriptions of the rows of the user that were
  -- created within the bounds and whose state the filter's text admits: there is no filter, or all
  -- its pieces between commas are blank, or one of them is the state's name. It does not depend on
  -- the order of the rows.
  pub list_apps_bag :
      (d : (m : Model) → Dec (IsAsked m)) (infos : List ApplicationInfo)
      → (list_apps D s user params w).0 ≡ ok infos
      → of_list infos ≡ bag_map (info s) (bag_filter d (of_list (D.rows w.db)))
  list_apps_bag d infos e =
      let (states, parsed, selected, iff, perm) = list_apps_listed D s user params w infos e in
      coe-eq-coe.1 perm
      ∙ ap (λ ms. of_list (map (info s) ms))
          (filter-keep d selected
            (λ m. (
              λ t. (IsAsked_iff states m parsed).0 ((iff m).0 t),
              λ h. (iff m).1 ((IsAsked_iff states m parsed).1 h),
            ))
            (D.rows w.db))
