-- ===== src/Node/Served/Tables.antt =====
-- The table of paths under which a node mounts its chains in svc/app/node/api.go.
use mathlib.Core.List.{Perm, Permᴰ, append_assoc}
use mathlib.Core.Logic.{∥∥₁_elim}
use mathlib.Core.Path.{subst}
use venn.Prelude.{
  ℕ, zero, suc, ◌+◌, ◌≤◌, ◌≡◌, refl, sym, ap, ◌∙◌, inl, inr, String, true, none, some, List, [],
  ◌∷◌, ◌++◌, str_eq, arith, Bool-cases, get_elem?, some-injective,
}
use venn.Prelude.Maps.{lookup}
use venn.Config.{Chain}
use venn.Config.Endpoints.{has}
use venn.Config.Endpoints.Distinct.{times, names_of, aliases_of, times-append}
use venn.Node.Paths.{Mounted, to_chain, health, dashboard}

abbrev pub Table : Type 0
Table = List (String × Mounted)

abbrev pub keys : Table → List String
keys [] = []
keys ((p, h) ∷ t) = p ∷ keys t

abbrev pub own : Mounted → List String → Table
own h [] = []
own h (p ∷ paths) = (p, h) ∷ own h paths

-- The paths of the chains, in the order of mounting.
abbrev pub all : List Chain → Table
all [] = []
all (c ∷ cs) = own (to_chain c) (c.name ∷ c.aliases) ++ all cs

abbrev pub reserved : Table
reserved = ("health", health) ∷ (("dashboard", dashboard) ∷ [])

pub lookup-none : (p : String) (t : Table) → times p (keys t) ≡ 0 → lookup p t ≡ none
unfolding lookup
lookup-none p [] h = refl
lookup-none p ((q, m) ∷ t) h = let rec = lookup-none p t in ground arith

pub times-keys :
    (e : String) (s t : Table) → times e (keys (s ++ t)) ≡ times e (keys s) + times e (keys t)
times-keys e [] t = omega arith
times-keys e ((p, h) ∷ s) t = let rec = times-keys e s t in ground arith

times-own :
    (e : String) (h : Mounted) (paths : List String) → times e (keys (own h paths)) ≡ times e paths
times-own e h [] = refl
times-own e h (p ∷ paths) = let rec = times-own e h paths in ground arith

pub times-all :
    (e : String) (cs : List Chain)
    → times e (keys (all cs)) ≡ times e (names_of cs) + times e (aliases_of cs)
times-all e [] = refl
times-all e (c ∷ cs) =
    let rec = times-all e cs in
    let a = times-keys e (own (to_chain c) (c.name ∷ c.aliases)) (all cs) in
    let b = times-own e (to_chain c) c.aliases in
    let d = times-append e c.aliases (aliases_of cs) in ground arith

abbrev own_of : Chain → Table
own_of c = own (to_chain c) (c.name ∷ c.aliases)

times-cons :
    (e : String) (c : Chain) (t : Table)
    → times e (keys (own_of c ++ t)) ≡ times e (keys (own_of c)) + times e (keys t)
times-cons e c t = times-keys e (own_of c) t

ℕ-IsSet : IsSet ℕ
ℕ-IsSet = hlevel

times-swap :
    (e : String) (a b : Chain) (l : List Chain)
    → times e (keys (all (a ∷ (b ∷ l)))) ≡ times e (keys (all (b ∷ (a ∷ l))))
times-swap e a b l = omega (
  arith,
  times-cons e a (own_of b ++ all l),
  times-cons e b (own_of a ++ all l),
  times-cons e a (all l),
  times-cons e b (all l),
)

times-permᴰ :
    (e : String) {xs ys : List Chain}
    → Permᴰ xs ys
    → times e (keys (all xs)) ≡ times e (keys (all ys))
times-permᴰ e Permᴰ.nil = refl
times-permᴰ e (Permᴰ.cons {a} {b} {l₁} {l₂} q r) =
    times-cons e a (all l₁)
    ∙ ap (λ n. times e (keys (own_of a)) + n) (times-permᴰ e r)
    ∙ sym (times-cons e a (all l₂))
    ∙ ap (λ (x : Chain). times e (keys (all (x ∷ l₂)))) q
times-permᴰ e (Permᴰ.swap {a} {b} {a'} {b'} {l} q r) =
    times-swap e a b l
    ∙ ap (λ (x : Chain). times e (keys (all (x ∷ (a ∷ l))))) r
    ∙ ap (λ (x : Chain). times e (keys (all (a' ∷ (x ∷ l))))) q
times-permᴰ e (Permᴰ.trans p q) = times-permᴰ e p ∙ times-permᴰ e q

pub times-perm :
    (e : String) (xs ys : List Chain)
    → Perm xs ys
    → times e (keys (all xs)) ≡ times e (keys (all ys))
times-perm e xs ys p = ∥∥₁_elim p (ℕ-IsSet _ _) (λ q. times-permᴰ e q)

-- The path of a chain leads to it where no other path is the same.
has-some : (p : String) (paths : List String) → has p paths ≡ true → 1 ≤ times p paths
unfolding has
has-some p [] h = absurd (ground arith)
has-some p (q ∷ paths) h = let rec = has-some p paths in ground arith

lookup-own :
    (p : String) (h : Mounted) (paths : List String) (t : Table)
    → has p paths ≡ true
    → lookup p (own h paths ++ t) ≡ some h
unfolding has lookup
lookup-own p h [] t e = absurd (ground arith)
lookup-own p h (q ∷ paths) t e = elim (Bool-cases (str_eq q p)) [
  | inl k ↦ rw k refl
  | inr k ↦ rw k (lookup-own p h paths t (rw k at e))
]

lookup-behind : (p : String) (s t : Table) → times p (keys s) ≡ 0 → lookup p (s ++ t) ≡ lookup p t
unfolding lookup
lookup-behind p [] t e = refl
lookup-behind p ((q, h) ∷ s) t e = elim (Bool-cases (str_eq q p)) [
  | inl k ↦ absurd (ground (arith, k))
  | inr k ↦ rw k (lookup-behind p s t (rw k at e))
]

times-some :
    (p : String) (cs : List Chain) (i : ℕ) (c : Chain)
    → get_elem? cs i ≡ some c
    → has p (c.name ∷ c.aliases) ≡ true
    → 1 ≤ times p (keys (all cs))
times-some p [] i c g h = absurd (ground arith)
times-some p (d ∷ cs) zero c g h =
    let found =
      has-some p (d.name ∷ d.aliases)
        (subst (λ (x : Chain). has p (x.name ∷ x.aliases) ≡ true) (sym (some-injective _ _ g)) h) in
    omega (arith, found, times-cons p d (all cs), times-own p (to_chain d) (d.name ∷ d.aliases))
times-some p (d ∷ cs) (suc i) c g h =
    omega (arith, times-some p cs i c g h, times-cons p d (all cs))

pub lookup-all :
    (p : String) (cs : List Chain) (t : Table) (i : ℕ) (c : Chain)
    → times p (keys (all cs)) ≤ 1
    → get_elem? cs i ≡ some c
    → has p (c.name ∷ c.aliases) ≡ true
    → lookup p (all cs ++ t) ≡ some (to_chain c)
lookup-all p [] t i c l g h = absurd (ground arith)
lookup-all p (d ∷ cs) t zero c l g h = rw (append_assoc (own_of d) (all cs) t) (
    lookup-own p (to_chain d) (d.name ∷ d.aliases) (all cs ++ t)
      (subst (λ (x : Chain). has p (x.name ∷ x.aliases) ≡ true) (sym (some-injective _ _ g)) h)
    ∙ ap (λ x. some (to_chain x)) (some-injective _ _ g))
lookup-all p (d ∷ cs) t (suc i) c l g h = rw (append_assoc (own_of d) (all cs) t) (
    lookup-behind p (own_of d) (all cs ++ t)
      (omega (arith, times-some p cs i c g h, times-cons p d (all cs), l))
    ∙ lookup-all p cs t i c (omega (arith, times-cons p d (all cs), l)) g h)
