-- ===== src/Text/Show.antt =====
-- `to_string` of the integer types: decimal digits.
use Prim.Native.String.{◌++◌}
use spark_plug.Common.{
  ℕ, zero, suc, ◌/◌, ◌%◌, ℤ, pos, negsuc, String, ◌≡◌, refl, ltb, ◌==◌, nat_eq, if◌then◌else◌,
}

unfoldable pub digit : ℕ → String
digit d =
    if d == 0
    then "0"
    else if d == 1
    then "1"
    else if d == 2
    then "2"
    else if d == 3
    then "3"
    else if d == 4
    then "4"
    else if d == 5
    then "5"
    else if d == 6
    then "6"
    else if d == 7
    then "7"
    else if d == 8
    then "8"
    else "9"

-- On fuel: a number has fewer digits than its successor.
unfoldable pub show_from : ℕ → ℕ → String
unfolding digit
show_from zero n = ""
show_from (suc fuel) n =
    let more = show_from fuel (n / 10) in if ltb n 10 then digit n else more ++ digit (n % 10)

unfoldable pub show : ℕ → String
unfolding show_from
show n = show_from (suc n) n

unfoldable pub show_int : ℤ → String
unfolding show
show_int (pos n) = show n
show_int (negsuc n) = "-" ++ show (suc n)

show_3600 : show 3600 ≡ "3600"
unfolding show
show_3600 = refl

show_minus : show_int (negsuc 9) ≡ "-10"
unfolding show_int
show_minus = refl
