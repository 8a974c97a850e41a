-- ===== src/Config/Endpoints/Distinct.antt =====
-- Which names the configurations have that lib/config/parse_node.go accepts.
use venn.Prelude.{
  ℕ, suc, ◌+◌, ◌≤◌, ◌≡◌, refl, sym, ap, ◌∙◌, ◌⊎◌, inl, inr, String, false, List, [], ◌∷◌, ◌++◌,
  str_eq, str_eq_iff, arith, if◌then◌else◌, Bool-cases,
}
use mathlib.Core.List.{append-nil}
use mathlib.Core.Path.{subst}
use venn.Prelude.Maps.{lookup, insert}
use venn.Rpc.{Error, Result, ok, err}
use venn.Config.{Chain, and_then, NodeConfig, parse_node_config}
use venn.Config.Endpoints.{
  has, is_there, add_aliases, add_chains, NodeConfigResult, node_file_parser,
}

-- How often a name is among some.
abbrev pub times : String → List String → ℕ
times e [] = 0
times e (x ∷ xs) = if str_eq x e then suc (times e xs) else times e xs

abbrev pub names_of : List Chain → List String
names_of [] = []
names_of (c ∷ cs) = c.name ∷ names_of cs

abbrev pub aliases_of : List Chain → List String
aliases_of [] = []
aliases_of (c ∷ cs) = c.aliases ++ aliases_of cs

pub times-append : (e : String) (xs ys : List String) → times e (xs ++ ys) ≡ times e xs + times e ys
times-append e [] ys = omega arith
times-append e (x ∷ xs) ys = let rec = times-append e xs ys in ground arith

has-times : (e : String) (xs : List String) → has e xs ≡ false → times e xs ≡ 0
unfolding has
has-times e [] h = refl
has-times e (x ∷ xs) h = let rec = has-times e xs in ground arith

err_ne : {A B : Type 0} {e : Error} {a : A} → err e ≡ ok a → B
err_ne h = cc

ok_inj : {A : Type 0} {a b : A} → ok a ≡ ok b → a ≡ b
ok_inj h = cc

-- What an alias that is accepted adds to how often a name is there.
alias-times :
    (e a : String) (endpoints aliases : List String) (n : ℕ)
    → times a endpoints ≡ 0
    → (n ≡ times e (a ∷ endpoints) + times e aliases)
    → (times e aliases ≡ 0) ⊎ ((times e aliases ≡ 1) × (times e (a ∷ endpoints) ≡ 0))
    → (n ≡ times e endpoints + times e (a ∷ aliases))
      × ((times e (a ∷ aliases) ≡ 0) ⊎ ((times e (a ∷ aliases) ≡ 1) × (times e endpoints ≡ 0)))
alias-times e a endpoints aliases n new h c = elim (Bool-cases (str_eq a e)) [
  | inl k ↦
      let same = (str_eq_iff a e).0 k in
      let none_yet : times e endpoints ≡ 0 = rw (← same) new in ground arith
  | inr k ↦ ground arith
]

-- The aliases that are added are new, and the endpoints grow by them.
add_aliases-times :
    (e : String) (endpoints aliases after : List String)
    → add_aliases endpoints aliases ≡ ok after
    → (times e after ≡ times e endpoints + times e aliases)
      × ((times e aliases ≡ 0) ⊎ ((times e aliases ≡ 1) × (times e endpoints ≡ 0)))
unfolding add_aliases
add_aliases-times e endpoints [] after h = (rw (ok_inj h) (omega arith), inl refl)
add_aliases-times e endpoints (a ∷ aliases) after h = elim (Bool-cases (has a endpoints)) [
  | inl k ↦ err_ne (rw k at h)
  | inr k ↦
      let (n, c) = add_aliases-times e (a ∷ endpoints) aliases after (rw k at h) in
      alias-times e a endpoints aliases (times e after) (has-times a endpoints k) n c
]

abbrev pub keys_of : List (String × Chain) → List String
keys_of [] = []
keys_of ((k, c) ∷ entries) = k ∷ keys_of entries

abbrev pub keyed : List Chain → List (String × Chain)
keyed [] = []
keyed (c ∷ cs) = (c.name, c) ∷ keyed cs

-- The values of a map, which Go visits in any order.
abbrev pub values : List (String × Chain) → List Chain
values [] = []
values ((k, c) ∷ entries) = c ∷ values entries

pub values-keyed : (cs : List Chain) → values (keyed cs) ≡ cs
values-keyed [] = refl
values-keyed (c ∷ cs) = ap (λ l. c ∷ l) (values-keyed cs)

append_assoc_one : {A : Type 0} (xs ys : List A) (x : A) → (xs ++ (x ∷ [])) ++ ys ≡ xs ++ (x ∷ ys)
append_assoc_one [] ys x = refl
append_assoc_one (y ∷ xs) ys x = ap (λ l. y ∷ l) (append_assoc_one xs ys x)

insert-new :
    (name : String) (c : Chain) (m : List (String × Chain))
    → is_there (lookup name m) ≡ false
    → insert name c m ≡ m ++ ((name, c) ∷ [])
unfolding lookup insert
insert-new name c [] h = refl
insert-new name c ((k, d) ∷ m) h = elim (Bool-cases (str_eq k name)) [
  | inl e ↦ absurd (ground (arith, e))
  | inr e ↦ rw e (ap (λ l. (k, d) ∷ l) (insert-new name c m (rw e at h)))
]

lookup-times :
    (name : String) (m : List (String × Chain))
    → is_there (lookup name m) ≡ false
    → times name (keys_of m) ≡ 0
unfolding lookup
lookup-times name [] h = refl
lookup-times name ((k, d) ∷ m) h = elim (Bool-cases (str_eq k name)) [
  | inl e ↦ absurd (ground (arith, e))
  | inr e ↦ rw e (lookup-times name m (rw e at h))
]

keys-append :
    (m : List (String × Chain)) (k : String) (c : Chain) (e : String)
    → times e (keys_of (m ++ ((k, c) ∷ []))) ≡ times e (keys_of m) + times e (k ∷ [])
keys-append [] k c e = omega arith
keys-append ((j, d) ∷ m) k c e = let rec = keys-append m k c e in ground arith

-- No two chains that are accepted share a name, nor do any two aliases.
abbrev pub Separate : List Chain → Type 0
Separate cs = (e : String) → (times e (names_of cs) ≤ 1) × (times e (aliases_of cs) ≤ 1)

module _ (e : String) where
  -- How often e is among the names and the aliases, once some chains are added behind others.
  abbrev pub Once : List (String × Chain) → List String → List Chain → Type 0
  Once m endpoints cs =
      (times e (keys_of m) + times e (names_of cs) ≤ 1)
      × ((times e (aliases_of cs) ≡ 0) ⊎ ((times e (aliases_of cs) ≡ 1) × (times e endpoints ≡ 0)))

  Once-cons :
      (c : Chain) (m : List (String × Chain)) (endpoints after : List String) (cs : List Chain)
      → times e after ≡ times e (c.name ∷ endpoints) + times e c.aliases
      → (times e c.aliases ≡ 0) ⊎ ((times e c.aliases ≡ 1) × (times e (c.name ∷ endpoints) ≡ 0))
      → Once (m ++ ((c.name, c) ∷ [])) after cs
      → Once m endpoints (c ∷ cs)
  Once-cons c m endpoints after cs n a (k, rest) =
      let grown = keys-append m c.name c e in
      let both = times-append e c.aliases (aliases_of cs) in (ground arith, ground arith)

and_then-ok :
    {A B : Type 0} (x : Result A) (f : A → Result B) (b : B)
    → and_then x f ≡ ok b
    → (a : A) × ((x ≡ ok a) × (f a ≡ ok b))
and_then-ok (err e) f b h = err_ne h
and_then-ok (ok a) f b h = (a, (refl, h))

keys-le :
    (e : String) (m : List (String × Chain)) (c : Chain)
    → is_there (lookup c.name m) ≡ false
    → times e (keys_of m) ≤ 1
    → times e (keys_of (m ++ ((c.name, c) ∷ []))) ≤ 1
keys-le e m c h l = elim (Bool-cases (str_eq c.name e)) [
  | inl k ↦
      let none_yet : times e (keys_of m) ≡ 0 =
        rw (← (str_eq_iff c.name e).0 k) (lookup-times c.name m h) in
      let grown = keys-append m c.name c e in ground arith
  | inr k ↦ let grown = keys-append m c.name c e in ground arith
]

-- What `add_chains` accepts, it adds to the map in order, with new names and new aliases.
add_chains-Once :
    (e : String) (m : List (String × Chain)) (endpoints : List String) (cs : List Chain)
    (r : List (String × Chain))
    → times e (keys_of m) ≤ 1
    → add_chains m endpoints cs ≡ ok r
    → (r ≡ m ++ keyed cs) × Once e m endpoints cs
unfolding add_chains
add_chains-Once e m endpoints [] r l h =
    (sym (ok_inj h) ∙ sym (append-nil m), (omega (arith, l), inl refl))
add_chains-Once e m endpoints (c ∷ cs) r l h = elim (Bool-cases (is_there (lookup c.name m))) [
  | inl k ↦ err_ne (rw k at h)
  | inr k ↦
      let (after, (added, rest)) =
        and_then-ok (add_aliases (c.name ∷ endpoints) c.aliases)
          (λ after. add_chains (insert c.name c m) after cs) r (rw k at h) in
      let (same, once) =
        add_chains-Once e (m ++ ((c.name, c) ∷ [])) after cs r (keys-le e m c k l)
          (rw (insert-new c.name c m k) at rest) in
      let (n, a) = add_aliases-times e (c.name ∷ endpoints) c.aliases after added in
      (
        same ∙ append_assoc_one m (keyed cs) (c.name, c),
        Once-cons e c m endpoints after cs n a once,
      )
]

-- The map of a configuration that is accepted has all its chains under their names, in order, and no two
-- of them share a name or an alias.
pub add_chains-Separate :
    (cs : List Chain) (r : List (String × Chain))
    → add_chains [] [] cs ≡ ok r
    → (r ≡ keyed cs) × Separate cs
add_chains-Separate cs r h = (
  (add_chains-Once "" [] [] cs r (omega arith) h).0,
  λ e.
      let (_, (n, a)) = add_chains-Once e [] [] cs r (omega arith) h in
      (omega (arith, n), elim a [ inl z ↦ omega (arith, z) | inr z ↦ omega (arith, z.0) ]),
)

-- The chains of a result of the parser are the values of its map, whose names and aliases are separate.
pub node_file_parser-Separate :
    (expand_env : String → String) (unmarshal : String → Result NodeConfig) (file : Result String)
    (res : NodeConfigResult)
    → node_file_parser expand_env unmarshal file ≡ ok res
    → Separate (values res.chains)
unfolding node_file_parser
node_file_parser-Separate expand_env unmarshal file res h =
    let (text, (_, h1)) = and_then-ok file _ res h in
    let (cfg, (_, h2)) = and_then-ok (parse_node_config expand_env unmarshal text) _ res h1 in
    let (m, (e, h3)) = and_then-ok (add_chains [] [] cfg.chains) _ res h2 in
    let (same, s) = add_chains-Separate cfg.chains m e in
    subst Separate
      (sym (values-keyed cfg.chains)
        ∙ ap values (sym same ∙ ap (λ (r : NodeConfigResult). r.chains) (ok_inj h3)))
      s
