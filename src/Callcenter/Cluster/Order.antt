-- ===== src/Callcenter/Cluster/Order.antt =====
-- The order in which the inner loop of `ServeRPC` (lib/callcenter/cluster.go) visits a priority.
use mathlib.Core.List.{Perm, perm_append_comm}
use mathlib.Core.List.Perm
use native.Mathlib.Nat.{mod-eq_of_lt, mod-lt, suc-mod, mod_self}
use venn.Prelude.{
  ℕ, zero, suc, ◌+◌, ◌-◌, ◌%◌, ◌<◌, ◌≤◌, ◌≡◌, refl, ap, none, some, List, [], ◌∷◌, ◌++◌, arith,
  length, get_elem?, take, drop, take-append-drop,
}

-- The index after `i`, inside the slice and at its end.
next_index : (j n i : ℕ) → suc j % n ≡ i → suc i < n → suc (suc j) % n ≡ suc i
next_index j n i e h = rw (suc-mod, e) (mod-eq_of_lt h)

next_index_wraps : (j n i : ℕ) → suc j % n ≡ i → suc i ≡ n → suc (suc j) % n ≡ 0
next_index_wraps j n i e h = rw (suc-mod, e, h) (mod_self n)

module _ {ℓ} {R : Type ℓ} where
  -- The remotes at the indices `(j + 1) % n`, `(j + 2) % n`, … for `m` rounds.
  unfoldable pub visited : List R → ℕ → ℕ → List R
  visited rs zero j = []
  visited rs (suc m) j = elim (get_elem? rs (suc j % length rs)) [
    | none ↦ []
    | some x ↦ x ∷ visited rs m (suc j)
  ]

  pub get_elem?-lt :
      (rs : List R) (i : ℕ)
      → i < length rs
      → (x : R) × (get_elem? rs i ≡ some x) × (drop i rs ≡ x ∷ drop (suc i) rs)
  get_elem?-lt [] i h = elim h [ ]
  get_elem?-lt (x ∷ rs) zero h = (x, refl, refl)
  get_elem?-lt (x ∷ rs) (suc i) h = get_elem?-lt rs i (omega arith)

  drop_end : (rs : List R) (i : ℕ) → length rs ≤ i → drop i rs ≡ []
  drop_end [] zero h = refl
  drop_end [] (suc i) h = refl
  drop_end (x ∷ rs) zero h = absurd (omega arith)
  drop_end (x ∷ rs) (suc i) h = drop_end rs i (omega arith)

  pub visited_one :
      (rs : List R) (m j i : ℕ) (x : R)
      → suc j % length rs ≡ i
      → get_elem? rs i ≡ some x
      → visited rs (suc m) j ≡ x ∷ visited rs m (suc j)
  unfolding visited
  visited_one rs m j i x e g = rw (e, visited, g)

  -- `m` rounds whose indices do not wrap take the `m` elements from position `i` on.
  visited_straight :
      (rs : List R) (m i j : ℕ)
      → (0 < m → suc j % length rs ≡ i)
      → i + m ≤ length rs
      → visited rs m j ≡ take m (drop i rs)
  unfolding visited
  visited_straight rs zero i j e h = refl
  visited_straight rs (suc m) i j e h =
      let (x, got, rest) = get_elem?-lt rs i (omega arith) in
      let here : suc j % length rs ≡ i = e (omega arith) in
      rw (rest, visited_one rs m j i x here got)
        (ap (◌∷◌ x) (
          visited_straight rs m (suc i) (suc j)
            (λ (p : 0 < m). next_index j (length rs) i here (omega arith)) (omega arith)))

  -- `a` rounds reach the end of the slice, and `b` more start again at its head.
  visited_wrap :
      (rs : List R) (m a b i j : ℕ)
      → suc j % length rs ≡ i
      → i < length rs
      → i + a ≡ length rs
      → b ≤ length rs
      → a + b ≡ m
      → visited rs m j ≡ drop i rs ++ take b rs
  visited_wrap rs m zero b i j e l p q k = absurd (omega arith)
  visited_wrap rs zero (suc a) b i j e l p q k = absurd (omega arith)
  visited_wrap rs (suc m) (suc zero) b i j e l p q k =
      let (x, got, rest) = get_elem?-lt rs i l in
      let b_eq : m ≡ b = omega arith in
      rw (rest, drop_end rs (suc i) (omega arith), visited_one rs m j i x e got, b_eq)
        (ap (◌∷◌ x) (
          visited_straight rs b 0 (suc j)
            (λ (h : 0 < b). next_index_wraps j (length rs) i e (omega arith)) (omega arith)))
  visited_wrap rs (suc m) (suc (suc a)) b i j e l p q k =
      let (x, got, rest) = get_elem?-lt rs i l in
      rw (rest, visited_one rs m j i x e got)
        (ap (◌∷◌ x) (
          visited_wrap rs m (suc a) b (suc i) (suc j) (next_index j (length rs) i e (omega arith))
            (omega arith) (omega arith) q (omega arith)))

  -- One pass over a priority visits its remotes from index `(j + 1) % n` to the end and then from
  -- the head: a rotation.
  pub visited-eq-rotation :
      (rs : List R) (j : ℕ)
      → 0 < length rs
      → visited rs (length rs) j ≡ drop (suc j % length rs) rs ++ take (suc j % length rs) rs
  visited-eq-rotation rs j h =
      let i = suc j % length rs in
      let l : i < length rs = mod-lt (suc j) h in
      visited_wrap rs (length rs) (length rs - i) i i j refl l (omega arith) (omega arith)
        (omega arith)

  visited_empty : (rs : List R) (j : ℕ) → length rs ≡ 0 → visited rs (length rs) j ≡ rs
  unfolding visited
  visited_empty [] j h = refl
  visited_empty (x ∷ rs) j h = absurd (omega arith)

  -- From whatever counter the pass starts, it tries every remote of the priority, and each once.
  pub visited-perm : (rs : List R) (j : ℕ) → Perm (visited rs (length rs) j) rs
  visited-perm [] j = rw (visited_empty [] j refl) (Perm.refl [])
  visited-perm (x ∷ rs) j =
      let i = suc j % suc (length rs) in
      rw (visited-eq-rotation (x ∷ rs) j (omega arith)) (
        Perm.trans (perm_append_comm (drop i (x ∷ rs)) (take i (x ∷ rs)))
          (rw (take-append-drop i (x ∷ rs)) (Perm.refl (x ∷ rs))))
