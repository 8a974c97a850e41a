-- ===== src/Stalker/Delay/Window.antt =====
-- The ring buffer of svc/node/atoms/stalker/delay.go.
use mathlib.Core.Path.{subst}
use mathlib.Core.List.{append_assoc, append-nil}
use venn.Prelude.{
  ℕ, suc, ◌-◌, ◌≤◌, ◌<◌, ◌≡◌, refl, sym, ap, ◌∙◌, List, [], ◌∷◌, ◌++◌, arith, length, drop, set,
  map, ltb, leb, if◌then◌else◌, length-append, length-set, length-map, Bool-cases, inl, inr, ◌⊎◌,
}
use venn.Prelude.Int.{ℤ}
use venn.Stalker.Delay.Ring.{rotate, rotate-set, rotate_all, drop-suc, drop-append, rotate_zero}
use venn.Stalker.Delay.{DelayTracker, new_delay_tracker, clamp, add, add_all}

-- Where `Add` writes next in a full buffer.
abbrev pub next_pos : DelayTracker → ℕ
next_pos t = if leb t.size (suc t.pos) then 0 else suc t.pos

-- The buffer after the delays `ds`: all of them, or a full ring of the last ones.
abbrev Filling : DelayTracker → List ℤ → Type 0
Filling t ds = (length ds ≤ t.size) × (t.nums ≡ ds) × (t.pos ≡ length ds)

abbrev Full : DelayTracker → List ℤ → Type 0
Full t ds =
    (t.size ≤ length ds)
    × (length t.nums ≡ t.size)
    × (rotate (next_pos t) t.nums ≡ drop (length ds - t.size) ds)

abbrev clamped : DelayTracker → ℤ → ℤ
clamped t d = clamp t.min t.max d

Full-of_Filling : (t : DelayTracker) (ds : List ℤ) → Filling t ds → t.size ≤ length ds → Full t ds
Full-of_Filling t ds (l, n, p) h =
    let zero_pos : next_pos t ≡ 0 = ground arith in
    let no_drop : length ds - t.size ≡ 0 = omega arith in
    (
      h,
      ap length n ∙ omega arith,
      ap (λ (p : ℕ). rotate p t.nums) zero_pos
          ∙ rotate_zero t.nums
          ∙ n
          ∙ ap (λ (k : ℕ). drop k ds) (sym no_drop),
    )

-- `Add`, on a buffer that is not full and on one that is.
add_open :
    (t : DelayTracker) (d : ℤ)
    → length t.nums < t.size
    → ((add d t).nums ≡ t.nums ++ (clamped t d ∷ [])) × ((add d t).pos ≡ suc (length t.nums))
unfolding add
add_open t d h = ground arith

add_full :
    (t : DelayTracker) (d : ℤ)
    → length t.nums ≡ t.size
    → ((add d t).nums ≡ set t.nums (next_pos t) (clamped t d)) × ((add d t).pos ≡ next_pos t)
unfolding add
add_full t d h = ground arith

add_kept :
    (t : DelayTracker) (d : ℤ)
    → ((add d t).size ≡ t.size) × ((add d t).min ≡ t.min) × ((add d t).max ≡ t.max)
unfolding add
add_kept t d = ground arith

next_pos-lt : (t : DelayTracker) → 0 < t.size → next_pos t < t.size
next_pos-lt t z = ground arith

rotate-next :
    (t : DelayTracker) (d : ℤ)
    → 0 < t.size
    → length t.nums ≡ t.size
    → rotate (next_pos (add d t)) (add d t).nums
      ≡ rotate (suc (next_pos t)) (set t.nums (next_pos t) (clamped t d))
rotate-next t d z h =
    let nums' = set t.nums (next_pos t) (clamped t d) in
    let (n, p) = add_full t d h in
    let (s, lo, hi) = add_kept t d in
    let l = length-set t.nums (next_pos t) (clamped t d) in
    let lt = next_pos-lt t z in
    ap (rotate (next_pos (add d t))) n ∙ elim (Bool-cases (leb t.size (suc (next_pos t)))) [
      | inl e ↦
          let end : suc (next_pos t) ≡ length nums' = ground arith in
          let wrapped : next_pos (add d t) ≡ 0 = ground arith in
          ap (λ (p : ℕ). rotate p nums') wrapped
          ∙ rotate_zero nums'
          ∙ sym (rotate_all nums')
          ∙ ap (λ (p : ℕ). rotate p nums') (sym end)
      | inr e ↦
          let on : next_pos (add d t) ≡ suc (next_pos t) = ground arith in
          ap (λ (p : ℕ). rotate p nums') on
    ]

add-Full :
    (t : DelayTracker) (d : ℤ) (ds : List ℤ)
    → 0 < t.size
    → Full t ds
    → Full (add d t) (ds ++ (clamped t d ∷ []))
add-Full t d ds z (g, l, w) =
    let c = clamped t d in
    let (n, p) = add_full t d l in
    let (s, lo, hi) = add_kept t d in
    let k = length ds - t.size in
    let ls = length-set t.nums (next_pos t) c in
    let la = length-append ds (c ∷ []) in
    let lt = next_pos-lt t z in
    let count : length (ds ++ (c ∷ [])) - (add d t).size ≡ suc k = omega (arith, s, la) in
    (
      omega (arith, s, la),
      ap length n ∙ ls ∙ l ∙ sym s,
      rotate-next t d z l
          ∙ rotate-set (next_pos t) t.nums c (omega arith)
          ∙ ap (λ (r : List ℤ). drop 1 r ++ (c ∷ [])) w
          ∙ ap (λ (r : List ℤ). r ++ (c ∷ [])) (drop-suc k ds)
          ∙ sym (drop-append (suc k) ds (c ∷ []) (omega arith))
          ∙ ap (λ (m : ℕ). drop m (ds ++ (c ∷ []))) (sym count),
    )

add-Filling :
    (t : DelayTracker) (d : ℤ) (ds : List ℤ)
    → length ds < t.size
    → Filling t ds
    → Filling (add d t) (ds ++ (clamped t d ∷ []))
add-Filling t d ds h (l, n, p) =
    let c = clamped t d in
    let ln : length t.nums ≡ length ds = ap length n in
    let (n', p') = add_open t d (omega (arith, ln)) in
    let (s, lo, hi) = add_kept t d in
    let la = length-append ds (c ∷ []) in
    (omega (arith, s, la), n' ∙ ap (λ (r : List ℤ). r ++ (c ∷ [])) n, p' ∙ omega (arith, ln, la))

abbrev Holds : DelayTracker → List ℤ → Type 0
Holds t ds = Filling t ds ⊎ Full t ds

add-Holds :
    (t : DelayTracker) (d : ℤ) (ds : List ℤ)
    → 0 < t.size
    → Holds t ds
    → Holds (add d t) (ds ++ (clamped t d ∷ []))
add-Holds t d ds z (inr f) = inr (add-Full t d ds z f)
add-Holds t d ds z (inl f) = elim (Bool-cases (ltb (length ds) t.size)) [
  | inl e ↦ inl (add-Filling t d ds (ground arith) f)
  | inr e ↦ inr (add-Full t d ds z (Full-of_Filling t ds f (ground arith)))
]

Full-of_Holds : (t : DelayTracker) (ds : List ℤ) → Holds t ds → t.size ≤ length ds → Full t ds
Full-of_Holds t ds (inl f) h = Full-of_Filling t ds f h
Full-of_Holds t ds (inr f) h = f

add_all_kept : (ds : List ℤ) (t : DelayTracker) → (add_all ds t).size ≡ t.size
unfolding add_all
add_all_kept [] t = refl
add_all_kept (d ∷ ds) t = add_all_kept ds (add d t) ∙ (add_kept t d).0

add_all-Holds :
    (ds : List ℤ) (t : DelayTracker) (seen : List ℤ)
    → 0 < t.size
    → Holds t seen
    → Holds (add_all ds t) (seen ++ map (clamped t) ds)
unfolding add_all
add_all-Holds [] t seen z h = rw (append-nil seen) h
add_all-Holds (d ∷ ds) t seen z h =
    let c = clamped t d in
    let (s, lo, hi) = add_kept t d in
    let rest =
      add_all-Holds ds (add d t) (seen ++ (c ∷ [])) (omega (arith, s)) (add-Holds t d seen z h) in
    subst (λ (xs : List ℤ). Holds (add_all ds (add d t)) xs)
      (append_assoc seen (c ∷ []) (map (clamped (add d t)) ds)
        ∙ ap (λ (f : ℤ → ℤ). seen ++ (c ∷ map f ds))
            (ap (λ (lo : ℤ). clamp lo (add d t).max) lo ∙ ap (clamp t.min) hi))
      rest

-- Once a tracker of a size above 0 has seen at least that many delays, its buffer holds exactly the last ones,
-- each cut off at the limits, and from the place of the next write on they stand in the order of their arrival.
pub add_all-window :
    (size : ℕ) (min max : ℤ) (ds : List ℤ)
    → 0 < size
    → size ≤ length ds
    → rotate
        (next_pos (add_all ds (new_delay_tracker size min max)))
        (add_all ds (new_delay_tracker size min max)).nums
      ≡ drop (length ds - size) (map (clamp min max) ds)
unfolding new_delay_tracker
add_all-window size min max ds z h =
    let t = new_delay_tracker size min max in
    let l = length-map ds (clamp min max) in
    let k = add_all_kept ds t in
    let held = add_all-Holds ds t [] z (inl (omega arith, refl, refl)) in
    let (g, n, w) =
      Full-of_Holds (add_all ds t) (map (clamp min max) ds) held (omega (arith, l, k)) in
    w ∙ ap (λ (n : ℕ). drop n (map (clamp min max) ds)) (omega (arith, l, k))
