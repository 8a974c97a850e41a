-- ===== src/Tests/Reports.antt =====
-- The oracles at concrete answers, in a program whose state is the time.
use venn.Prelude.{
  ℕ, suc, ◌+◌, ◌≤◌, ◌≡◌, ◌⊎◌, refl, true, Option, none, some, List, [], ◌∷◌, arith, leb,
}
use venn.Prelude.Order
use venn.Prelude.Order.{ℕ_ordered, count}
use venn.Rpc.{Error, plain, ok, err}
use venn.Oracles.{
  Oracle, gather, highest, trim, max, max_trim, median_oracle, max_trim_oracle, max_oracle,
  fallback_oracle,
}
use venn.Oracles.Trusted.{median_oracle-between}
use venn.Oracles.Trimmed.{max_trim_oracle-Trimmed}
use venn.Oracles.Kept.{reports, reports-kept}

abbrev latter : Option Error → Error → Error
latter merr e = e

abbrev says : ℕ → Oracle ℕ ℕ
says n s = (ok n, s + 1)

abbrev down : Oracle ℕ ℕ
down s = (err (plain "down"), s + 1)

-- Three agree about the head, one is far ahead, and one is down.
abbrev five : List (Oracle ℕ ℕ)
five = says 100 ∷ (says 99 ∷ (down ∷ (says 101 ∷ (says 9000 ∷ []))))

median_oracle-between_example :
    (v : ℕ) × (((median_oracle latter 0 five 0).0 ≡ some (ok v))
      × ((leb 99 v ≡ true) × (leb v 101 ≡ true)))
unfolding gather
median_oracle-between_example =
    median_oracle-between latter 0 99 101 five 0 (omega arith, omega arith)

abbrev six : List (Oracle ℕ ℕ)
six = says 1 ∷ five

max_trim_oracle-Trimmed_run :
    (v : ℕ) × (((max_trim_oracle latter 0 six 0).0 ≡ ok v)
      × (((v ≡ 0) ⊎ (2 ≤ count (leb v) (1 ∷ (100 ∷ (99 ∷ (101 ∷ (9000 ∷ [])))))))
          × (5 ≤ suc (count (λ x. leb x v) (1 ∷ (100 ∷ (99 ∷ (101 ∷ (9000 ∷ [])))))))))
unfolding gather
max_trim_oracle-Trimmed_run = max_trim_oracle-Trimmed latter 0 six 0 (omega arith)

trimmed_run : (max_trim_oracle latter 0 six 0).0 ≡ ok 101
unfolding gather max_trim_oracle max_trim trim highest Order.sort Order.insert_sorted
trimmed_run = refl

-- All the answers are zero: the highest one counts as none, and the error of the one that is down is all.
zero_run : (max_oracle latter 0 (says 0 ∷ (down ∷ (says 0 ∷ []))) 0).0 ≡ err (plain "down")
unfolding gather max_oracle max highest
zero_run = refl

fallback_run : fallback_oracle latter down (says 7) 0 ≡ (ok 7, 2)
unfolding fallback_oracle
fallback_run = refl

-- Asked at 10, the primary answers 5 at 11; up to 20 that is the answer.
reports-kept_run :
    reports
      (λ s. s)
      10
      (says 5)
      (record { expire_time = none; last_value = 0 })
      (10 ∷ (15 ∷ (20 ∷ [])))
    ≡ (ok 5, 11) ∷ ((ok 5, 15) ∷ ((ok 5, 20) ∷ []))
reports-kept_run =
    reports-kept (λ s. s) 10 (says 5) (record { expire_time = none; last_value = 0 }) 10 11 5
      (15 ∷ (20 ∷ [])) refl refl (omega arith, (omega arith, tt))
