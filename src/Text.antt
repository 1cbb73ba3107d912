-- ===== src/Text.antt =====
-- The operations of `str` that the program calls, over code points.
pub mod Laws
pub mod Show
pub mod Bearer
pub mod Utf8
pub mod Pieces
use Prim.Native.String.{[], ◌∷◌}
use mathlib.Core.Option
use spark_plug.Common.{
  ℕ, zero, suc, ◌+◌, ◌/◌, ◌%◌, Char, code, String, ◌≡◌, refl, Bool, true, false, ◌&&◌, ◌||◌, Option,
  none, some, List, [], ◌∷◌, ◌++◌, ◌==◌, nat_eq, string_eq, ltb, leb, if◌then◌else◌,
}

-- `split_once`: the parts before and after the first occurrence of a character.
unfoldable pub split_once : ℕ → String → Option (String × String)
split_once c [] = none
split_once c (ch ∷ s) =
    if code ch == c then some ("", s) else Option.map (λ p. (ch ∷ p.0, p.1)) (split_once c s)

-- `split`: the pieces between the occurrences of a character; never empty.
unfoldable pub push_head : Char → List String → List String
push_head ch [] = (ch ∷ []) ∷ []
push_head ch (p ∷ ps) = (ch ∷ p) ∷ ps

unfoldable pub split : ℕ → String → List String
unfolding push_head
split c [] = "" ∷ []
split c (ch ∷ s) = let rest = split c s in if code ch == c then "" ∷ rest else push_head ch rest

-- The `White_Space` property of Unicode, which `trim` uses.
unfoldable pub is_whitespace : ℕ → Bool
is_whitespace c =
    (leb 9 c && leb c 13)
    || (c == 32)
    || (c == 0x85)
    || (c == 0xa0)
    || (c == 0x1680)
    || (leb 0x2000 c && leb c 0x200a)
    || (leb 0x2028 c && leb c 0x2029)
    || (c == 0x202f)
    || (c == 0x205f)
    || (c == 0x3000)

trim_start : String → String
trim_start [] = []
trim_start (ch ∷ s) = let rest = trim_start s in if is_whitespace (code ch) then rest else ch ∷ s

pub trim_end : String → String
trim_end [] = []
trim_end (ch ∷ s) =
    let rest = trim_end s in if rest == "" && is_whitespace (code ch) then "" else ch ∷ rest

unfoldable pub trim : String → String
unfolding trim_start trim_end is_whitespace
trim s = trim_end (trim_start s)

-- `starts_with s t`: `t` is a prefix of `s`.
unfoldable pub starts_with : String → String → Bool
starts_with s [] = true
starts_with [] (c ∷ t) = false
starts_with (d ∷ s) (c ∷ t) = (code d == code c) && starts_with s t

-- The text behind the first `n` characters.
unfoldable pub drop : ℕ → String → String
drop zero s = s
drop (suc n) [] = []
drop (suc n) (c ∷ s) = drop n s

unfoldable pub contains : String → String → Bool
unfolding starts_with
contains [] t = starts_with [] t
contains (c ∷ s) t = starts_with (c ∷ s) t || contains s t

-- The UTF-8 bytes of a code point.
unfoldable pub utf8 : ℕ → List ℕ
utf8 c =
    if ltb c 0x80
    then c ∷ []
    else if ltb c 0x800
    then (0xc0 + c / 0x40) ∷ (0x80 + c % 0x40) ∷ []
    else if ltb c 0x10000
    then (0xe0 + c / 0x1000) ∷ (0x80 + c / 0x40 % 0x40) ∷ (0x80 + c % 0x40) ∷ []
    else (0xf0 + c / 0x40000)
      ∷ (0x80 + c / 0x1000 % 0x40)
      ∷ (0x80 + c / 0x40 % 0x40)
      ∷ (0x80 + c % 0x40)
      ∷ []

unfoldable pub bytes : String → List ℕ
unfolding utf8
bytes [] = []
bytes (ch ∷ s) = utf8 (code ch) ++ bytes s

trim_both : trim " \t a b \n" ≡ "a b"
unfolding trim
trim_both = refl

split_three : split b',' "a,,b" ≡ "a" ∷ "" ∷ "b" ∷ []
unfolding split
split_three = refl

contains_scheme : contains "s3://x" "://" ≡ true
unfolding contains
contains_scheme = refl

bytes_of_e_acute : bytes "é%" ≡ 0xc3 ∷ 0xa9 ∷ 0x25 ∷ []
unfolding bytes
bytes_of_e_acute = refl
