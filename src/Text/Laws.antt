-- ===== src/Text/Laws.antt =====
-- Splitting at a character, and prefixes.
use Prim.Native.String.{[], ◌∷◌, ◌++◌, count}
use text.Mathlib.TextEquality.{Char-path}
use text.Mathlib.TextLemmas.{nil-append, cons-append, length-cons}
use mathlib.Core.Path.{ap₂}
use spark_plug.Common.{
  Char, code, String, ◌≡◌, refl, some, arith, ◌==◌, nat_eq, true, inl, inr, Option-cases,
  Bool-cases, sym, ap,
}
use spark_plug.Text.{split_once, starts_with, drop}

-- A text reads as what stands before the first space, the space, and what stands behind it.
space_of_code : (c : Char) (s : String) → code c ≡ 32 → c ∷ s ≡ "" ++ (" " ++ s)
space_of_code c s e =
    rw (Char-path c " " e, cons-append, nil-append) (ap (λ r. " " ∷ r) (sym (nil-append s)))

pub split_once_sound : (h a b : String) → split_once 32 h ≡ some (a, b) → h ≡ a ++ (" " ++ b)
unfolding split_once
split_once_sound [] a b e = cc
split_once_sound (c ∷ s) a b e = elim (Bool-cases (code c == 32)) [
  | inl t ↦
      let q : ("" ≡ a) × (s ≡ b) = ground arith in
      rw (← q.0, ← q.1) (space_of_code c s (ground arith))
  | inr t ↦ elim (Option-cases (split_once 32 s)) [
    | inl n ↦ absurd (ground arith)
    | inr (p, f) ↦
        let q : (c ∷ p.0 ≡ a) × (p.1 ≡ b) = ground arith in
        rw (← q.0, ← q.1, cons-append) (ap (λ r. c ∷ r) (split_once_sound s p.0 p.1 f))
  ]
]

pub starts_with_sound : (s t : String) → starts_with s t ≡ true → s ≡ t ++ drop (count t) s
unfolding starts_with drop
starts_with_sound s [] h = rw nil-append
starts_with_sound [] (c ∷ t) h = cc
starts_with_sound (d ∷ s) (c ∷ t) h =
    let same : code d ≡ code c = ground arith in
    rw (length-cons, cons-append)
      (ap₂ (λ x r. x ∷ r) (Char-path d c same) (starts_with_sound s t (ground arith)))

pub starts_with-append : (t s : String) → starts_with (t ++ s) t ≡ true
unfolding starts_with
starts_with-append [] s = refl
starts_with-append (c ∷ t) s = rw cons-append (ground (arith, starts_with-append t s))

pub drop-append : (t s : String) → drop (count t) (t ++ s) ≡ s
unfolding drop
drop-append [] s = nil-append s
drop-append (c ∷ t) s = rw (length-cons, cons-append) (drop-append t s)
