-- ===== src/Oracles.antt =====
-- lib/oracles/oracle.go: one answer out of those of several oracles. An oracle runs in a program with the
-- state S; `append` is `multierr.Append(merr, err)` for an error.
pub mod Trusted
pub mod Trimmed
pub mod Kept
use venn.Prelude.{
  ℕ, zero, suc, ◌+◌, ◌-◌, ◌/◌, ◌≤◌, Bool, true, false, Option, none, some, List, [], ◌∷◌, arith,
  length, get_elem?, leb, ltb, not, if◌then◌else◌,
}
use venn.Prelude.Order.{Ordered, sort}
use venn.Rpc.{Error, Result, ok, err}

-- `Oracle`, by its `Report`
abbrev pub Oracle : Type 0 → Type 0 → Type 0
Oracle A S = S → Result A × S

-- The answers and the errors of the loops over the oracles.
abbrev pub Gathered : Type 0 → Type 0 → Type 0
Gathered A S = (List A × Option Error) × S

abbrev pub cons_answer : {A S : Type 0} → A → Gathered A S → Gathered A S
cons_answer a ((answers, merr), s) = ((a ∷ answers, merr), s)

module _ {A S : Type 0} (append : Option Error → Error → Error) where
  abbrev pub on_report :
      Option Error → Result A × S → (Option Error → S → Gathered A S) → Gathered A S
  on_report merr (err e, s) rest = rest (some (append merr e)) s
  on_report merr (ok a, s) rest = cons_answer a (rest merr s)

  unfoldable pub gather : List (Oracle A S) → Option Error → S → Gathered A S
  gather [] merr s = (([], merr), s)
  gather (o ∷ os) merr s = on_report merr (o s) (gather os)

-- `return t, merr`: with no error at all the zero value is the answer.
abbrev pub no_answer : {A : Type 0} → A → Option Error → Result A
no_answer t none = ok t
no_answer t (some e) = err e

module _ {A : Type 0} where
  abbrev pub drop_last : List A → List A
  drop_last [] = []
  drop_last (x ∷ []) = []
  drop_last (x ∷ (y ∷ ys)) = x ∷ drop_last (y ∷ ys)

  abbrev pub tail : List A → List A
  tail [] = []
  tail (x ∷ xs) = xs

  -- `responses[1 : len(responses)-1]` of five or more
  unfoldable pub trim : List A → List A
  trim xs = if leb 5 (length xs) then drop_last (tail xs) else xs

  abbrev pub indexed : Option A → Option (Result A)
  indexed none = none
  indexed (some a) = some (ok a)

module _ {A : Type 0} ⦃o : Ordered A⦄ (t : A) where
  -- `v > best`
  abbrev pub greater : A → A → Bool
  greater v best = not (o.le v best)

  -- The loops that keep the highest.
  unfoldable pub highest : A → List A → A
  highest best [] = best
  highest best (v ∷ vs) = highest (if greater v best then v else best) vs

  -- `MaxTrimOracle` and `MedianOracle` once the answers are there; `none` is an index out of range.
  unfoldable pub max_trim : List A → Option Error → Result A
  unfolding highest trim
  max_trim [] merr = no_answer t merr
  max_trim (x ∷ xs) merr = ok (highest t (trim (sort (x ∷ xs))))

  unfoldable pub median : List A → Option Error → Option (Result A)
  median [] merr = some (no_answer t merr)
  median (x ∷ xs) merr = indexed (get_elem? (sort (x ∷ xs)) (length (x ∷ xs) / 2))

  -- `MaxOracle`, whose loop is over the oracles: only a higher answer than the zero value counts as a hit.
  unfoldable pub max : List A → Option Error → Result A
  unfolding highest
  max xs merr = let best = highest t xs in if greater best t then ok best else no_answer t merr

module _ {A S : Type 0} ⦃o : Ordered A⦄ (append : Option Error → Error → Error) (t : A)
    (os : List (Oracle A S)) where
  unfoldable pub max_trim_oracle : Oracle A S
  unfolding gather max_trim
  max_trim_oracle s =
      let ((answers, merr), s') = gather append os none s in (max_trim t answers merr, s')

  unfoldable pub max_oracle : Oracle A S
  unfolding gather max
  max_oracle s = let ((answers, merr), s') = gather append os none s in (max t answers merr, s')

  unfoldable pub median_oracle : S → Option (Result A) × S
  unfolding gather median
  median_oracle s =
      let ((answers, merr), s') = gather append os none s in (median t answers merr, s')

-- `FallbackOracle`
abbrev pub on_fallback :
    {A S : Type 0} → (Option Error → Error → Error) → Error → Result A × S → Result A × S
on_fallback append e1 (err e, s) = (err (append (some e1) e), s)
on_fallback append e1 (ok a, s) = (ok a, s)

abbrev pub on_primary :
    {A S : Type 0} → (Option Error → Error → Error) → Oracle A S → Result A × S → Result A × S
on_primary append fallback (ok a, s) = (ok a, s)
on_primary append fallback (err e1, s) = on_fallback append e1 (fallback s)

unfoldable pub fallback_oracle :
    {A S : Type 0} → (Option Error → Error → Error) → Oracle A S → Oracle A S → Oracle A S
fallback_oracle append primary fallback s = on_primary append fallback (primary s)

-- The variables of `TtlOracle`; `none` is the zero time, before every other.
pub record Ttl (A : Type 0) : Type 0 where
  pub expire_time : Option ℕ
  pub last_value : A

abbrev pub is_fresh : Option ℕ → ℕ → Bool
is_fresh none now = false
is_fresh (some expire) now = ltb now expire

abbrev pub on_refresh : {A S : Type 0} → (S → ℕ) → ℕ → Ttl A → Result A × S → Result A × (Ttl A × S)
on_refresh clock ttl c (err e, s) = (err e, (record c { expire_time = none }, s))
on_refresh clock ttl c (ok a, s) =
    (ok a, (record { expire_time = some (clock s + ttl); last_value = a }, s))

-- `TtlOracle`, with `clock` for `time.Now`
unfoldable pub ttl_oracle : {A S : Type 0} → (S → ℕ) → ℕ → Oracle A S → Oracle A (Ttl A × S)
ttl_oracle clock ttl primary (c, s) =
    let refreshed = on_refresh clock ttl c (primary s) in
    if is_fresh c.expire_time (clock s) then (ok c.last_value, (c, s)) else refreshed
