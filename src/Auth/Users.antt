-- ===== src/Auth/Users.antt =====
-- Which user `UserAuth::authorize` of server/src/auth.rs gives a request.
use spark_plug.Common.{
  String, ◌≡◌, ◌≢◌, ◌↔◌, refl, Option, none, some, List, [], ◌∷◌, arith, Result, ok, err, All, ap,
  inl, inr, Option-cases, ◌∙◌,
}
use spark_plug.Http.{HeaderMap, unauthorized}
use spark_plug.Auth.{UserAuthMethod, first_user, found, answer, authorize}

-- A method that finds no user, or that fails.
abbrev pub IsSilent : HeaderMap → UserAuthMethod → Type 0
IsSilent headers m = (v : String) → m headers ≢ ok (some v)

-- The first method that finds a user finds `u`.
pub data Finds (headers : HeaderMap) (u : String) : List UserAuthMethod → Type 0 where
  here :
      {m : UserAuthMethod} {ms : List UserAuthMethod}
      → m headers ≡ ok (some u)
      → Finds headers u (m ∷ ms)
  later :
      {m : UserAuthMethod} {ms : List UserAuthMethod}
      → IsSilent headers m
      → Finds headers u ms
      → Finds headers u (m ∷ ms)

found_of_IsSilent :
    (r : Result String (Option String)) → ((v : String) → r ≢ ok (some v)) → found r ≡ none
unfolding found
found_of_IsSilent (ok none) h = refl
found_of_IsSilent (ok (some v)) h = absurd (h v refl)
found_of_IsSilent (err e) h = refl

ok_of_found : (r : Result String (Option String)) (v : String) → found r ≡ some v → r ≡ ok (some v)
unfolding found
ok_of_found (ok o) v e = ap ok e
ok_of_found (err x) v e = cc

silent_of_found :
    (r : Result String (Option String)) (v : String) → found r ≡ none → r ≢ ok (some v)
unfolding found
silent_of_found (ok o) v e q = cc
silent_of_found (err x) v e q = cc

module _ (headers : HeaderMap) where
  first_user_sound :
      (ms : List UserAuthMethod) (u : String) → first_user ms headers ≡ some u → Finds headers u ms
  unfolding first_user
  first_user_sound [] u e = cc
  first_user_sound (m ∷ ms) u e = elim (Option-cases (found (m headers))) [
    | inl silent ↦
        later (λ v. silent_of_found (m headers) v silent)
          (first_user_sound ms u (rw (silent, first_user) at e))
    | inr (v, f) ↦ here (ok_of_found (m headers) u (f ∙ (rw (f, first_user) at e)))
  ]

  first_user_complete :
      {u : String} {ms : List UserAuthMethod} → Finds headers u ms → first_user ms headers ≡ some u
  unfolding first_user found
  first_user_complete (here e) = rw (e, first_user, found)
  first_user_complete (later {m} silent f) =
      rw (found_of_IsSilent (m headers) silent, first_user) (first_user_complete f)

  first_user-none :
      (ms : List UserAuthMethod) → first_user ms headers ≡ none → All (IsSilent headers) ms
  unfolding first_user
  first_user-none [] e = tt
  first_user-none (m ∷ ms) e = elim (Option-cases (found (m headers))) [
    | inl silent ↦ (
      λ v. silent_of_found (m headers) v silent,
      first_user-none ms (rw (silent, first_user) at e),
    )
    | inr (v, f) ↦ absurd (ground arith)
  ]

  first_user_of_silent :
      (ms : List UserAuthMethod) → All (IsSilent headers) ms → first_user ms headers ≡ none
  unfolding first_user
  first_user_of_silent [] h = refl
  first_user_of_silent (m ∷ ms) h =
      rw (found_of_IsSilent (m headers) h.0, first_user) (first_user_of_silent ms h.1)

  user_of : (o : Option String) (u : String) → answer o ≡ ok (record { name = u }) → o ≡ some u
  unfolding answer
  user_of none u e = cc
  user_of (some v) u e = cc

  none_of : (o : Option String) → answer o ≡ err unauthorized → o ≡ none
  unfolding answer
  none_of none e = refl
  none_of (some v) e = cc

  -- A request is given the user `u` exactly when `u` is what the first method in the configured
  -- order that finds a user finds; methods before it that fail do not stop the search.
  pub authorize_iff :
      (ms : List UserAuthMethod) (u : String)
      → (authorize ms headers ≡ ok (record { name = u })) ↔ Finds headers u ms
  unfolding authorize answer
  authorize_iff ms u = (
    λ e. first_user_sound ms u (user_of (first_user ms headers) u e),
    λ f. rw (first_user_complete f),
  )

  -- A request is refused exactly when no method finds a user, and then with 401.
  pub unauthorized_iff :
      (ms : List UserAuthMethod)
      → (authorize ms headers ≡ err unauthorized) ↔ All (IsSilent headers) ms
  unfolding authorize answer
  unauthorized_iff ms = (
    λ e. first_user-none ms (none_of (first_user ms headers) e),
    λ h. rw (first_user_of_silent ms h),
  )
