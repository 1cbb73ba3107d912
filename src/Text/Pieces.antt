-- ===== src/Text/Pieces.antt =====
-- What `split` makes of a text that is put together.
use Prim.Native.String.{[], ◌∷◌, ◌++◌}
use text.Mathlib.TextLemmas.{nil-append, cons-append}
use spark_plug.Common.{
  ℕ, zero, suc, if◌then◌else◌, ◌/◌, ◌%◌, Char, code, String, ◌≡◌, refl, Bool, true, false, not,
  ◌&&◌, List, [], ◌∷◌, arith, ◌==◌, nat_eq, sym, ap, Bool-cases, inl, inr, ltb,
}
use spark_plug.Text.{split, push_head}
use spark_plug.Text.Show.{digit, show_from, show}

-- A text without a character.
unfoldable pub lacks : ℕ → String → Bool
lacks c [] = true
lacks c (ch ∷ s) = not (code ch == c) && lacks c s

-- A text before the first piece.
unfoldable pub push_text : String → List String → List String
push_text s [] = s ∷ []
push_text s (p ∷ ps) = (s ++ p) ∷ ps

push_nothing_head :
    (ch : Char) (ps : List String) → push_text "" (push_head ch ps) ≡ push_head ch ps
unfolding push_text push_head
push_nothing_head ch [] = ap (λ p. p ∷ []) (nil-append (ch ∷ ""))
push_nothing_head ch (p ∷ ps) = ap (λ q. q ∷ ps) (nil-append (ch ∷ p))

push_nothing : (c : ℕ) (t : String) → push_text "" (split c t) ≡ split c t
unfolding push_text split
push_nothing c [] = refl
push_nothing c (ch ∷ t) = elim (Bool-cases (code ch == c)) [
  | inl e ↦ rw e refl
  | inr e ↦ rw e (push_nothing_head ch (split c t))
]

push_head-push_text :
    (ch : Char) (s : String) (ps : List String)
    → push_head ch (push_text s ps) ≡ push_text (ch ∷ s) ps
unfolding push_text push_head
push_head-push_text ch s [] = refl
push_head-push_text ch s (p ∷ ps) = ap (λ q. q ∷ ps) (sym (cons-append ch s p))

pub split-append :
    (c : ℕ) (s t : String) → lacks c s ≡ true → split c (s ++ t) ≡ push_text s (split c t)
unfolding split lacks
split-append c [] t h = rw (nil-append t) (sym (push_nothing c t))
split-append c (ch ∷ s) t h =
    let apart : (code ch == c) ≡ false = ground arith in
    let ih = split-append c s t (ground arith) in
    rw (cons-append ch s t) (rw (apart, ih) (push_head-push_text ch s (split c t)))

-- Behind the character, a new piece begins.
pub split_at : (c : ℕ) (ch : Char) (t : String) → code ch ≡ c → split c (ch ∷ t) ≡ "" ∷ split c t
unfolding split
split_at c ch t e = ground arith

pub lacks-append :
    (c : ℕ) (s t : String) → lacks c s ≡ true → lacks c t ≡ true → lacks c (s ++ t) ≡ true
unfolding lacks
lacks-append c [] t h k = rw (nil-append t) k
lacks-append c (ch ∷ s) t h k =
    let ih = lacks-append c s t in rw (cons-append ch s t) (ground (arith, ih))

lacks-if :
    (b : Bool) (s t : String)
    → lacks 59 s ≡ true
    → lacks 59 t ≡ true
    → lacks 59 (if b then s else t) ≡ true
lacks-if true s t h k = h
lacks-if false s t h k = k

lacks-digit : (d : ℕ) → lacks 59 (digit d) ≡ true
unfolding digit lacks
lacks-digit d = lacks-if (d == 0) _ _ refl (
    lacks-if (d == 1) _ _ refl (
      lacks-if (d == 2) _ _ refl (
        lacks-if (d == 3) _ _ refl (
          lacks-if (d == 4) _ _ refl (
            lacks-if (d == 5) _ _ refl (
              lacks-if (d == 6) _ _ refl
                (lacks-if (d == 7) _ _ refl (lacks-if (d == 8) _ _ refl refl))))))))

lacks-show_from : (fuel n : ℕ) → lacks 59 (show_from fuel n) ≡ true
unfolding show_from
lacks-show_from zero n = unfold lacks in refl
lacks-show_from (suc fuel) n = elim (Bool-cases (ltb n 10)) [
  | inl e ↦ rw e (lacks-digit n)
  | inr e ↦ rw e (
      lacks-append 59 (show_from fuel (n / 10)) (digit (n % 10)) (lacks-show_from fuel (n / 10))
        (lacks-digit (n % 10)))
]

-- A number has no semicolon.
pub lacks-show : (n : ℕ) → lacks 59 (show n) ≡ true
unfolding show
lacks-show n = lacks-show_from (suc n) n
