-- ===== src/Map.antt =====
-- `std::collections::HashMap` with text keys, as an association list whose keys are unique.
-- Iteration follows the list; the theorems over an iteration hold for every order of it.
use spark_plug.Common.{
  String, ◌≡◌, refl, Bool, Option, none, some, List, [], ◌∷◌, arith, ◌==◌, eq_iff, string_eq,
  if◌then◌else◌, or_else, is_some,
}

abbrev pub Map {ℓ} : Type ℓ → Type ℓ
Map V = List (String × V)

module _ {ℓ} {V : Type ℓ} where
  unfoldable pub get : Map V → String → Option V
  get [] k = none
  get ((j, v) ∷ m) k = if j == k then some v else get m k

  unfoldable pub insert : Map V → String → V → Map V
  insert [] k v = (k, v) ∷ []
  insert ((j, w) ∷ m) k v = if j == k then (k, v) ∷ m else (j, w) ∷ insert m k v

  unfoldable pub remove : Map V → String → Map V
  remove [] k = []
  remove ((j, v) ∷ m) k = let rest = remove m k in if j == k then rest else (j, v) ∷ rest

  -- `extend`: every entry of the second map is inserted into the first.
  unfoldable pub extend : Map V → Map V → Map V
  extend m [] = m
  extend m ((k, v) ∷ n) = extend (insert m k v) n

  unfoldable pub contains_key : Map V → String → Bool
  contains_key m k = is_some (get m k)

  -- No key stands twice.
  abbrev pub IsMap : Map V → Type ℓ
  IsMap [] = Unit
  IsMap ((k, v) ∷ m) = (get m k ≡ none) × IsMap m

  pub get-empty : (k : String) → get [] k ≡ none
  unfolding get
  get-empty k = refl

  pub get-insert :
      (m : Map V) (k j : String) (v : V)
      → get (insert m k v) j ≡ (if k == j then some v else get m j)
  unfolding get insert
  get-insert [] k j v = refl
  get-insert ((i, w) ∷ m) k j v =
      ground (arith, eq_iff k j, eq_iff i k, eq_iff i j, get-insert m k j v)

  pub get-remove :
      (m : Map V) (k j : String) → get (remove m k) j ≡ (if k == j then none else get m j)
  unfolding get remove
  get-remove [] k j = ground arith
  get-remove ((i, v) ∷ m) k j = ground (arith, get-remove m k j, eq_iff i k, eq_iff i j, eq_iff k j)

  pub get-extend :
      (m n : Map V) (j : String) → IsMap n → get (extend m n) j ≡ or_else (get n j) (get m j)
  unfolding get extend
  get-extend m [] j h = refl
  get-extend m ((k, v) ∷ n) j h =
      ground (arith, get-extend (insert m k v) n j h.1, get-insert m k j v, eq_iff k j)

  pub insert-IsMap : (m : Map V) (k : String) (v : V) → IsMap m → IsMap (insert m k v)
  unfolding insert get
  insert-IsMap [] k v h = (refl, tt)
  insert-IsMap ((i, w) ∷ m) k v h =
      ground (arith, insert-IsMap m k v h.1, get-insert m k i v, eq_iff i k, eq_iff k i)

  pub remove-IsMap : (m : Map V) (k : String) → IsMap m → IsMap (remove m k)
  unfolding remove
  remove-IsMap [] k h = tt
  remove-IsMap ((i, w) ∷ m) k h = ground (arith, remove-IsMap m k h.1, get-remove m k i, eq_iff k i)

pub ruleset map_laws = (get-empty, get-insert, get-remove)
