-- ===== src/Prelude/Duration.antt =====
-- `time.Duration`: 64-bit signed nanoseconds, with the wrap-around of `d * 2` and the division
-- `d / 2` that rounds toward zero.
use venn.Prelude.{ℕ, ◌+◌, ◌-◌, ◌*◌, ◌/◌, ◌^◌, ltb, leb, ◌==◌, if◌then◌else◌}
use venn.Prelude.Int.{ℤ, pos, negsuc, leb_ℤ}

abbrev pub Duration : Type 0
Duration = ℤ

abbrev pub second : ℕ
second = 1_000_000_000

abbrev pub millisecond : ℕ
millisecond = 1_000_000

unfoldable pub double : Duration → Duration
double (pos n) = if ltb (2 * n) (2 ^ 63) then pos (2 * n) else negsuc (2 ^ 64 - 2 * n - 1)
double (negsuc n) =
    if leb (2 * n + 2) (2 ^ 63) then negsuc (2 * n + 1) else pos (2 ^ 64 - 2 * n - 2)

unfoldable pub halve : Duration → Duration
halve (pos n) = pos (n / 2)
halve (negsuc n) = if n == 0 then pos 0 else negsuc ((n + 1) / 2 - 1)

unfoldable pub min : Duration → Duration → Duration
min a b = if leb_ℤ a b then a else b

unfoldable pub max : Duration → Duration → Duration
max a b = if leb_ℤ a b then b else a
