-- ===== src/Prelude/Decimal.antt =====
-- Numbers as `fmt.Sprintf("%d", n)` and `strconv.Itoa` print them.
use Prim.Native.String.{◌++◌ as ◌⧺◌}
use venn.Prelude.{ℕ, zero, suc, ◌/◌, ◌%◌, String, ◌==◌, if◌then◌else◌}
use venn.Prelude.Int.{ℤ, pos, negsuc}

unfoldable digit : ℕ → String
digit n =
    if n == 0
    then "0"
    else if n == 1
    then "1"
    else if n == 2
    then "2"
    else if n == 3
    then "3"
    else if n == 4
    then "4"
    else if n == 5
    then "5"
    else if n == 6
    then "6"
    else if n == 7
    then "7"
    else if n == 8
    then "8"
    else "9"

-- With more digits than the number has, which 20 are for a number of 64 bits.
unfoldable digits : ℕ → ℕ → String → String
unfolding digit
digits zero n s = s
digits (suc fuel) n s =
    let s' = digit (n % 10) ⧺ s in
    let rest = digits fuel (n / 10) s' in if n / 10 == 0 then s' else rest

unfoldable pub itoa : ℤ → String
unfolding digits
itoa (pos n) = digits 20 n ""
itoa (negsuc n) = "-" ⧺ digits 20 (suc n) ""
