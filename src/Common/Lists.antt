-- ===== src/Common/Lists.antt =====
-- Lists with Boolean tests, predicates over lists, and their laws.
use Prim.Native.Nat.{ℕ, ◌+◌, suc}
use mathlib.Core.Path.{◌≡◌, refl, ap, subst, sym}
use mathlib.Core.Logic.{◌⊎◌, inl, inr}
use mathlib.Core.Bool.{Bool, true, false, ◌||◌}
use mathlib.Core.Option.{Option, none, some}
use mathlib.Core.List.{List, [], ◌∷◌, ◌++◌}
use native.Mathlib.Omega.{arith}
use spark_plug.Common.Base.{if◌then◌else◌}

module _ {ℓ} {A : Type ℓ} where
  abbrev pub length : List A → ℕ
  length [] = 0
  length (x ∷ xs) = suc (length xs)

  -- The elements that pass a test, in order.
  abbrev pub keep : (A → Bool) → List A → List A
  keep p [] = []
  keep p (x ∷ xs) = let rest = keep p xs in if p x then x ∷ rest else rest

  -- Apply `f` to the elements that pass a test.
  abbrev pub map_where : (A → Bool) → (A → A) → List A → List A
  map_where p f [] = []
  map_where p f (x ∷ xs) = (if p x then f x else x) ∷ map_where p f xs

  -- How many elements pass a test.
  abbrev pub count_where : (A → Bool) → List A → ℕ
  count_where p [] = 0
  count_where p (x ∷ xs) = (if p x then 1 else 0) + count_where p xs

  -- `Iterator::find`.
  abbrev pub find : (A → Bool) → List A → Option A
  find p [] = none
  find p (x ∷ xs) = if p x then some x else find p xs

module _ {ℓ κ} {A : Type ℓ} (P : A → Type κ) where
  abbrev pub All : List A → Type κ
  All [] = Unit
  All (x ∷ xs) = P x × All xs

  pub All-append : (xs ys : List A) → All xs → All ys → All (xs ++ ys)
  All-append [] ys hx hy = hy
  All-append (x ∷ xs) ys hx hy = (hx.0, All-append xs ys hx.1 hy)

  pub All-map_where :
      (p : A → Bool) (f : A → A) (xs : List A)
      → ((x : A) → P x → p x ≡ true → P (f x))
      → All xs
      → All (map_where p f xs)
  All-map_where p f [] step h = tt
  All-map_where p f (x ∷ xs) step h = (go (p x) refl, All-map_where p f xs step h.1)
    where
      go : (b : Bool) → p x ≡ b → P (if b then f x else x)
      go true e = step x h.0 e
      go false e = h.0

  pub All-keep : (p : A → Bool) (xs : List A) → All xs → All (keep p xs)
  All-keep p [] h = tt
  All-keep p (x ∷ xs) h = go (p x) (All-keep p xs h.1)
    where
      go : (b : Bool) → All (keep p xs) → All (if b then x ∷ keep p xs else keep p xs)
      go true ih = (h.0, ih)
      go false ih = ih

-- `x` stands in the list.
abbrev pub In : {A : Type 0} → A → List A → Type 0
In x [] = ⊥
In x (y ∷ ys) = (x ≡ y) ⊎ In x ys

module _ {ℓ} {A : Type ℓ} (p : A → Bool) (f : A → A) where
  -- An update that affects nothing changes nothing.
  pub map_where-of-none : (xs : List A) → All (λ x. p x ≡ false) xs → map_where p f xs ≡ xs
  map_where-of-none [] h = refl
  map_where-of-none (x ∷ xs) h = rw h.0 (ap (λ r. x ∷ r) (map_where-of-none xs h.1))

  pub none_of_count : (xs : List A) → count_where p xs ≡ 0 → All (λ x. p x ≡ false) xs
  none_of_count [] h = tt
  none_of_count (x ∷ xs) h = (ground arith, none_of_count xs (ground arith))

  pub count_of_none : (xs : List A) → All (λ x. p x ≡ false) xs → count_where p xs ≡ 0
  count_of_none [] h = refl
  count_of_none (x ∷ xs) h = ground (arith, count_of_none xs h.1)

-- Some element has the property.
abbrev pub Any : {A : Type 0} → (A → Type 0) → List A → Type 0
Any P [] = ⊥
Any P (x ∷ xs) = P x ⊎ Any P xs

pub All-In {κ} : {A : Type 0} (P : A → Type κ) {x : A} (xs : List A) → All P xs → In x xs → P x
All-In P [] h i = absurd i
All-In P (y ∷ ys) h (inl e) = subst P (sym e) h.0
All-In P (y ∷ ys) h (inr i) = All-In P ys h.1 i

pub All-of {ℓ κ} : {A : Type ℓ} {P : A → Type κ} (xs : List A) → ((x : A) → P x) → All P xs
All-of [] h = tt
All-of (x ∷ xs) h = (h x, All-of xs h)

pub All-zip {ℓ κ} :
    {A : Type ℓ} {P Q R : A → Type κ}
    → ((x : A) → P x → Q x → R x)
    → (xs : List A) → All P xs
    → All Q xs
    → All R xs
All-zip step [] h k = tt
All-zip step (x ∷ xs) h k = (step x h.0 k.0, All-zip step xs h.1 k.1)

module _ {ℓ} {A : Type ℓ} (p q : A → Bool) (f : A → A) where
  -- Two updates that set the same are one.
  pub map_where_twice :
      (xs : List A)
      → ((x : A) → f (f x) ≡ f x)
      → ((x : A) → q (f x) ≡ q x)
      → map_where q f (map_where p f xs) ≡ map_where (λ x. p x || q x) f xs
  map_where_twice [] idem same = refl
  map_where_twice (x ∷ xs) idem same = ground (arith, idem x, same x, map_where_twice xs idem same)

  pub map_where_ext : (xs : List A) → All (λ x. p x ≡ q x) xs → map_where p f xs ≡ map_where q f xs
  map_where_ext [] h = refl
  map_where_ext (x ∷ xs) h = rw (h.0, map_where_ext xs h.1) refl

pub map_where_never {ℓ} : {A : Type ℓ} (f : A → A) (xs : List A) → map_where (λ x. false) f xs ≡ xs
map_where_never f [] = refl
map_where_never f (x ∷ xs) = ap (λ r. x ∷ r) (map_where_never f xs)

module _ {ℓ} {A : Type ℓ} (q p : A → Bool) (f : A → A) where
  -- An update of elements that a test leaves out, before and after, is not seen through the test.
  pub keep-map_where :
      (xs : List A)
      → ((x : A) → p x ≡ true → (q x ≡ false) × (q (f x) ≡ false))
      → keep q (map_where p f xs) ≡ keep q xs
  keep-map_where [] h = refl
  keep-map_where (x ∷ xs) h = ground (arith, h x, keep-map_where xs h)
