-- ===== src/Routes/Named.antt =====
-- Which states the filter of `list_apps` (server/src/routes.rs) names, told of its text.
use mathlib.Core.Path.{subst}
use spark_plug.Common.{
  String, ◌≡◌, ◌≢◌, ◌↔◌, refl, Option, none, some, List, [], ◌∷◌, arith, ◌==◌, string_eq, eq_iff,
  Result, ok, err, All, Any, In, ◌⊎◌, inl, inr, Option-cases, Bool-cases, ap, ok-ne-err,
  ok_injective, sym, ◌∙◌,
}
use spark_plug.Text.{split, trim}
use spark_plug.Application.{
  State, launching, running, failed, finished, to_value, try_from_value, try_from_value-to_value,
  to_value_of_try_from_value,
}
use spark_plug.Http.{Status}
use spark_plug.Routes.Api.{state_filter, parse_states}
use spark_plug.Routes.Selection.{IsNamed}
use spark_plug.Routes.Listing.{parse_blank, parse_unknown, parse_known, consed}

abbrev pub name_of : State → String
name_of launching = "LAUNCHING"
name_of running = "RUNNING"
name_of failed = "FAILED"
name_of finished = "FINISHED"

abbrev pub IsBlank : String → Type 0
IsBlank piece = trim piece ≡ ""

abbrev pub Names : State → String → Type 0
Names s piece = trim piece ≡ name_of s

-- A filter admits a state: there is none, or its pieces between commas are all blank, or one of
-- them is the state's name, spaces aside.
abbrev pub Admits : Option String → State → Type 0
Admits none s = Unit
Admits (some filter) s = All IsBlank (split b',' filter) ⊎ Any (Names s) (split b',' filter)

same_name : (s : State) → to_value s ≡ name_of s
unfolding to_value
same_name launching = refl
same_name running = refl
same_name failed = refl
same_name finished = refl

name-ne-blank : (s : State) → name_of s ≢ ""
name-ne-blank launching e = cc
name-ne-blank running e = cc
name-ne-blank failed e = cc
name-ne-blank finished e = cc

some_injective : {s t : State} → ◌≡◌ {A = Option State} (some s) (some t) → s ≡ t
some_injective e = cc

name_injective : (s t : State) → name_of s ≡ name_of t → s ≡ t
name_injective s t e = some_injective (
    sym (try_from_value-to_value s)
    ∙ ap try_from_value (same_name s ∙ e ∙ sym (same_name t))
    ∙ try_from_value-to_value t)

-- What a piece adds to the states of the others.
data IsPiece (p : String) (ps : List String) (states : List State) : Type 0 where
  blank : IsBlank p → parse_states ps ≡ ok states → IsPiece p ps states
  known :
      (s : State) (rest : List State)
      → Names s p
      → states ≡ s ∷ rest
      → parse_states ps ≡ ok rest
      → IsPiece p ps states

consed_ok :
    (s : State) (r : Result Status (List State)) (states : List State)
    → consed s r ≡ ok states
    → (rest : List State) × (r ≡ ok rest) × (states ≡ s ∷ rest)
consed_ok s (ok rest) states e = (rest, refl, sym (ok_injective e))
consed_ok s (err x) states e = absurd (ok-ne-err (sym e))

IsPiece-of :
    (p : String) (ps : List String) (states : List State)
    → parse_states (p ∷ ps) ≡ ok states
    → IsPiece p ps states
IsPiece-of p ps states e = elim (Bool-cases (trim p == "")) [
  | inl b ↦ let empty = (eq_iff (trim p) "").0 b in blank empty (sym (parse_blank p ps empty) ∙ e)
  | inr b ↦
      let full : trim p ≢ "" = ground (arith, eq_iff (trim p) "") in
      elim (Option-cases (try_from_value (trim p))) [
        | inl unknown ↦ absurd (ok-ne-err (sym e ∙ parse_unknown p ps full unknown))
        | inr (s, found) ↦
            let (rest, q, same) =
              consed_ok s (parse_states ps) states (sym (parse_known p ps s full found) ∙ e) in
            known s rest (to_value_of_try_from_value (trim p) s found ∙ same_name s) same q
      ]
]

parse_nil : parse_states [] ≡ ok []
unfolding parse_states
parse_nil = refl

module _ (s : State) where
  named_sound :
      (ps : List String) (states : List State)
      → parse_states ps ≡ ok states
      → In s states
      → Any (Names s) ps
  named_sound [] states e h = absurd (subst (In s) (ok_injective (sym e ∙ parse_nil)) h)
  named_sound (p ∷ ps) states e h = elim (IsPiece-of p ps states e) [
    | blank b q ↦ inr (named_sound ps states q h)
    | known t rest n same q ↦ elim (subst (In s) same h) [
      | inl here ↦ inl (n ∙ ap name_of (sym here))
      | inr later ↦ inr (named_sound ps rest q later)
    ]
  ]

  named_complete :
      (ps : List String) (states : List State)
      → parse_states ps ≡ ok states
      → Any (Names s) ps
      → In s states
  named_complete [] states e h = absurd h
  named_complete (p ∷ ps) states e h = elim (IsPiece-of p ps states e) [
    | blank b q ↦ elim h [
      | inl here ↦ absurd (name-ne-blank s (sym here ∙ b))
      | inr later ↦ named_complete ps states q later
    ]
    | known t rest n same q ↦ subst (In s) (sym same) (elim h [
      | inl here ↦ inl (name_injective s t (sym here ∙ n))
      | inr later ↦ inr (named_complete ps rest q later)
    ])
  ]

cons-ne-nil : (s : State) (ss : List State) → (s ∷ ss) ≢ []
cons-ne-nil s ss e = cc

IsBlank-none :
    (ps : List String) (states : List State)
    → parse_states ps ≡ ok states
    → (states ≡ []) ↔ All IsBlank ps
IsBlank-none [] states e = (λ q. tt, λ h. ok_injective (sym e ∙ parse_nil))
IsBlank-none (p ∷ ps) states e = elim (IsPiece-of p ps states e) [
  | blank b q ↦ (
    λ none_left. (b, (IsBlank-none ps states q).0 none_left),
    λ h. (IsBlank-none ps states q).1 h.1,
  )
  | known t rest n same q ↦ (
    λ none_left. absurd (cons-ne-nil t rest (sym same ∙ none_left)),
    λ h. absurd (name-ne-blank t (sym n ∙ h.0)),
  )
]

IsNamed_iff : (states : List State) (s : State) → IsNamed states s ↔ ((states ≡ []) ⊎ In s states)
IsNamed_iff [] s = (λ h. inl refl, λ h. tt)
IsNamed_iff (t ∷ ts) s = (inr, λ h. elim h [ inl e ↦ absurd (cons-ne-nil t ts e) | inr i ↦ i ])

-- The states that the filter is parsed to admit the same as its text.
pub IsNamed-Admits :
    (filter : Option String) (states : List State) (s : State)
    → state_filter filter ≡ ok states
    → IsNamed states s ↔ Admits filter s
unfolding state_filter
IsNamed-Admits none states s e = (λ h. tt, λ h. subst (λ ts. IsNamed ts s) (ok_injective e) tt)
IsNamed-Admits (some filter) states s e =
    let ps = split b',' filter in
    (
      λ h. elim ((IsNamed_iff states s).0 h) [
        | inl nil ↦ inl ((IsBlank-none ps states e).0 nil)
        | inr listed ↦ inr (named_sound s ps states e listed)
      ],
      λ h. (IsNamed_iff states s).1 (elim h [
        | inl blanks ↦ inl ((IsBlank-none ps states e).1 blanks)
        | inr named ↦ inr (named_complete s ps states e named)
      ]),
    )
