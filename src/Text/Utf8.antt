-- ===== src/Text/Utf8.antt =====
-- The bytes of a text are bytes.
use Prim.Native.Nat.{compare, Ordering}
use Prim.Native.Char.{Char, char, code, IsLt}
use Prim.Native.String.{[], ◌∷◌}
use spark_plug.Common.{ℕ, ◌<◌, String, ◌≡◌, ◌⊎◌, inl, inr, refl, arith, All, All-append}
use spark_plug.Text.{bytes, utf8}

abbrev pub IsByte : ℕ → Type 0
IsByte b = b < 256

abbrev Both : Ordering → Ordering → Type 0
Both Ordering.lt o = IsLt o
Both Ordering.eq _ = ⊥
Both Ordering.gt _ = ⊥

abbrev Scalar : Ordering → Ordering → Ordering → Type 0
Scalar Ordering.lt _ _ = Unit
Scalar Ordering.eq o p = Both o p
Scalar Ordering.gt o p = Both o p

Both-lt : (o p : Ordering) → Both o p → p ≡ Ordering.lt
Both-lt Ordering.lt Ordering.lt h = refl
Both-lt Ordering.lt Ordering.eq h = absurd h
Both-lt Ordering.lt Ordering.gt h = absurd h
Both-lt Ordering.eq p h = absurd h
Both-lt Ordering.gt p h = absurd h

Scalar-lt : (o p q : Ordering) → Scalar o p q → (o ≡ Ordering.lt) ⊎ (q ≡ Ordering.lt)
Scalar-lt Ordering.lt p q h = inl refl
Scalar-lt Ordering.eq p q h = inr (Both-lt p q h)
Scalar-lt Ordering.gt p q h = inr (Both-lt p q h)

code_bound : (c : Char) → code c < 0x110000
code_bound (char n p) =
    ground (arith, Scalar-lt (compare n 55296) (compare 57343 n) (compare n 1114112) p)

utf8-IsByte : (c : ℕ) → c < 0x110000 → All IsByte (utf8 c)
unfolding utf8
utf8-IsByte c h = ground arith

pub bytes-IsByte : (s : String) → All IsByte (bytes s)
unfolding bytes
bytes-IsByte [] = tt
bytes-IsByte (c ∷ s) =
    All-append IsByte (utf8 (code c)) (bytes s) (utf8-IsByte (code c) (code_bound c))
      (bytes-IsByte s)
