-- ===== src/Oracles/Kept.antt =====
-- How long `TtlOracle` of lib/oracles/oracle.go keeps an answer.
use venn.Prelude.{
  ℕ, ◌+◌, ◌≤◌, ◌<◌, ◌≡◌, refl, ap, true, false, none, some, List, [], ◌∷◌, arith, ltb,
}
use venn.Rpc.{Error, Result, ok, err}
use venn.Oracles.{Oracle, Ttl, is_fresh, on_refresh, ttl_oracle}

ltb-true : (a b : ℕ) → a < b → ltb a b ≡ true
ltb-true a b h = ground arith

ltb-false : (a b : ℕ) → b ≤ a → ltb a b ≡ false
ltb-false a b h = ground arith

module _ {A S : Type 0} (clock : S → ℕ) (ttl : ℕ) (primary : Oracle A S) where
  -- The reports of one oracle, each in the state that the rest of the program has reached by then.
  abbrev pub reports : Ttl A → List S → List (Result A × S)
  reports c [] = []
  reports c (s ∷ ss) =
      let (r, (c', s')) = ttl_oracle clock ttl primary (c, s) in (r, s') ∷ reports c' ss

  abbrev pub AllBefore : ℕ → List S → Type 0
  AllBefore limit [] = Unit
  AllBefore limit (s ∷ ss) = (clock s < limit) × AllBefore limit ss

  -- Every report gives the answer a, and leaves the state as it was: the primary is not asked.
  abbrev pub repeated : A → List S → List (Result A × S)
  repeated a [] = []
  repeated a (s ∷ ss) = (ok a, s) ∷ repeated a ss

  reports-fresh :
      (a : A) (expire : ℕ) (ss : List S)
      → AllBefore expire ss
      → reports (record { expire_time = some expire; last_value = a }) ss ≡ repeated a ss
  unfolding ttl_oracle
  reports-fresh a expire [] h = refl
  reports-fresh a expire (s ∷ ss) (h, hs) =
      rw (ltb-true (clock s) expire h) (rw (reports-fresh a expire ss hs) refl)

  -- When a `TtlOracle` that keeps no fresh answer asks its primary and gets an answer, then every later
  -- report before ttl has passed since then gives the same answer and does not ask the primary.
  pub reports-kept :
      (c : Ttl A) (s s' : S) (a : A) (ss : List S)
      → is_fresh (c.expire_time) (clock s) ≡ false
      → primary s ≡ (ok a, s')
      → AllBefore (clock s' + ttl) ss
      → reports c (s ∷ ss) ≡ (ok a, s') ∷ repeated a ss
  unfolding ttl_oracle
  reports-kept c s s' a ss h e b = rw (h, e) (rw (reports-fresh a (clock s' + ttl) ss b) refl)

  refresh-same :
      (c : Ttl A) (r : Result A × S)
      → ((on_refresh clock ttl c r).0, (on_refresh clock ttl c r).1.1) ≡ r
  refresh-same c (ok a, s) = refl
  refresh-same c (err e, s) = refl

  -- After an error the next report asks the primary, whatever its time.
  reports-err :
      (c : Ttl A) (s s' s2 : S) (e : Error)
      → is_fresh (c.expire_time) (clock s) ≡ false
      → primary s ≡ (err e, s')
      → reports c (s ∷ (s2 ∷ [])) ≡ (err e, s') ∷ (primary s2 ∷ [])
  unfolding ttl_oracle
  reports-err c s s' s2 e h p =
      rw (h, p)
        (ap (λ r. (err e, s') ∷ (r ∷ []))
          (refresh-same (record c { expire_time = none }) (primary s2)))
