-- ===== src/Stalker/Delay.antt =====
-- svc/node/atoms/stalker/delay.go: a running mean of the last delays.
pub mod Ring
pub mod Window
use venn.Prelude.{
  ℕ, zero, suc, ◌+◌, ◌≤◌, Bool, true, false, Option, none, some, List, [], ◌∷◌, ◌++◌, length,
  get_elem?, get_or, set, ltb, leb, if◌then◌else◌,
}
use venn.Prelude.Int.{ℤ, pos, negsuc, ◌+ℤ◌, ◌-ℤ◌, leb_ℤ}
use venn.Prelude.Int64.{wrap, times, quotient}

pub record DelayTracker : Type 0 where
  pub size : ℕ
  pub pos : ℕ
  pub mean : ℤ
  pub nums : List ℤ
  pub min : ℤ
  pub max : ℤ

unfoldable pub new_delay_tracker : ℕ → ℤ → ℤ → DelayTracker
new_delay_tracker size min max = record {
  size = size;
  pos = 0;
  mean = ℤ.pos 0;
  nums = [];
  min = min;
  max = max;
}

unfoldable pub clamp : ℤ → ℤ → ℤ → ℤ
clamp min max d = if leb_ℤ d min then min else if leb_ℤ max d then max else d

-- `Add`, for a size above 0: a full buffer is used as a ring.
unfoldable pub add : ℤ → DelayTracker → DelayTracker
unfolding clamp
add delay t =
    let d = clamp t.min t.max delay in
    let n = length t.nums in
    let p = if leb t.size (suc t.pos) then 0 else suc t.pos in
    let old = get_or t.nums p (ℤ.pos 0) in
    if ltb n t.size
    then record t {
      mean = quotient (wrap (wrap (times t.mean n) +ℤ d)) (suc n);
      nums = t.nums ++ (d ∷ []);
      pos = suc n;
    }
    else record t {
      pos = p;
      nums = set t.nums p d;
      mean = quotient (wrap (wrap (wrap (times t.mean t.size) -ℤ old) +ℤ d)) t.size;
    }

unfoldable pub add_all : List ℤ → DelayTracker → DelayTracker
unfolding add
add_all [] t = t
add_all (d ∷ ds) t = add_all ds (add d t)
