-- ===== src/Prelude/Int64.antt =====
-- Go's `int`, of 64 bits: sums and products wrap around, division rounds toward zero.
use venn.Prelude.{ℕ, suc, ◌-◌, ◌*◌, ◌/◌, ◌%◌, ◌^◌, ltb, if◌then◌else◌}
use venn.Prelude.Int.{ℤ, pos, negsuc, sub_ℕ, leb_ℤ}

unfoldable pub wrap_nat : ℕ → ℤ
wrap_nat n = let m = n % 2 ^ 64 in if ltb m (2 ^ 63) then pos m else negsuc (2 ^ 64 - m - 1)

unfoldable pub wrap : ℤ → ℤ
unfolding wrap_nat
wrap (pos n) = wrap_nat n
wrap (negsuc n) = wrap_nat (2 ^ 64 - 1 - n % 2 ^ 64)

-- An integer times a number, without the wrap-around.
unfoldable pub times : ℤ → ℕ → ℤ
times (pos a) b = pos (a * b)
times (negsuc a) b = sub_ℕ 0 (suc a * b)

-- `a / b` for a divisor above 0.
unfoldable pub quotient : ℤ → ℕ → ℤ
quotient (pos a) b = pos (a / b)
quotient (negsuc a) b = sub_ℕ 0 (suc a / b)

-- The difference of two times as a `time.Duration`, which `Time.Sub` cuts off at its limits.
unfoldable pub saturate : ℤ → ℤ
saturate a =
    if leb_ℤ (pos (2 ^ 63)) a
    then pos (2 ^ 63 - 1)
    else if leb_ℤ a (negsuc (2 ^ 63 - 1))
    then negsuc (2 ^ 63 - 1)
    else a
