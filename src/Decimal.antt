-- ===== src/Decimal.antt =====
-- The decimal printing of `strconv` and `fmt` that the code uses.
pub mod Order
use Prim.Native.Char.{Char}
use Prim.Native.String.{[], ◌∷◌, ◌++◌, count}
use group_sync_operator.Prelude.{ℕ, zero, suc, ◌+◌, ◌-◌, ◌/◌, ◌%◌, String, eqb, ltb, if◌then◌else◌}
use group_sync_operator.Prelude.Int.{ℤ, pos, negsuc}

abbrev pub digit : ℕ → Char
digit d =
    if eqb d 0
    then "0"
    else if eqb d 1
    then "1"
    else if eqb d 2
    then "2"
    else if eqb d 3
    then "3"
    else if eqb d 4
    then "4"
    else if eqb d 5
    then "5"
    else if eqb d 6
    then "6"
    else if eqb d 7
    then "7"
    else if eqb d 8
    then "8"
    else "9"

-- The digits of `n` before `acc`, the last one first. A number has fewer digits than the number
-- that is its fuel.
unfoldable pub itoa_from : ℕ → ℕ → String → String
itoa_from zero n acc = acc
itoa_from (suc f) n acc =
    let more = itoa_from f (n / 10) (digit (n % 10) ∷ acc) in
    if ltb n 10 then digit n ∷ acc else more

-- `strconv.Itoa` and `%d` on a number that is not negative.
unfoldable pub itoa : ℕ → String
itoa n = itoa_from (suc n) n []

unfoldable pub zeros : ℕ → String
zeros zero = []
zeros (suc n) = "0" ∷ zeros n

-- `%0wd`.
unfoldable pub pad : ℕ → ℕ → String
pad w n = zeros (w - count (itoa n)) ++ itoa n

-- `%0wd` on a signed number: the sign counts for the width.
unfoldable pub pad_int : ℕ → ℤ → String
pad_int w (pos n) = pad w n
pad_int w (negsuc n) = "-" ++ pad (w - 1) (n + 1)

-- `strconv.FormatInt(n, 10)`, and `strconv.Itoa` on a signed number.
unfoldable pub format_int : ℤ → String
format_int (pos n) = itoa n
format_int (negsuc n) = "-" ++ itoa (n + 1)
