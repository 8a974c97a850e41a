-- ===== src/Node/Served.antt =====
-- A node serves each chain under its names, from the file of its configuration (lib/config/parse_node.go)
-- to the router (svc/app/node/api.go).
pub mod Tables
pub mod Plain
use mathlib.Core.List.{Perm, Permᴰ, append_assoc, append-nil}
use mathlib.Core.Logic.{∥∥₁_elim}
use mathlib.Core.Path.{subst}
use venn.Prelude.{
  ℕ, zero, suc, ◌+◌, ◌≤◌, ◌≡◌, refl, sym, ap, ◌∙◌, ◌⊎◌, inl, inr, String, true, Option, none, some,
  List, [], ◌∷◌, ◌++◌, str_eq, str_eq_iff, arith, Bool-cases, get_elem?, some-injective,
}
use venn.Prelude.Maps.{lookup}
use venn.Rpc.{Result, ok}
use venn.Config.{Chain, NodeConfig}
use venn.Config.Endpoints.{has, NodeConfigResult, node_file_parser}
use venn.Config.Endpoints.Distinct.{
  times, names_of, aliases_of, times-append, values, Separate, node_file_parser-Separate,
}
use venn.Node.Paths.{
  Mounted, to_chain, health, dashboard, and_mount, mount_each, mount_chains, route,
}
use venn.Node.Served.Plain.{is_plain, ArePlain, NamesPlain, plain-left, plain-right, routes-plain}
use venn.Node.Served.Tables.{
  Table, keys, own, all, reserved, lookup-none, times-keys, times-all, times-perm, lookup-all,
}

-- `Mount` of chi does not panic at a plain path that is not mounted, where all that are mounted are plain too.
abbrev pub MountsNew : {R : Type 0} → (String → Mounted → R → Option R) → (R → Table) → Type 0
MountsNew {R} mount table =
    (p : String) (h : Mounted) (r : R)
    → is_plain p ≡ true
    → ArePlain (keys (table r))
    → lookup p (table r) ≡ none
    → (r' : R) × ((mount p h r ≡ some r') × (table r' ≡ table r ++ ((p, h) ∷ [])))

-- No alias of a chain is the name of one, and neither is a path of the node itself.
abbrev pub Unmixed : List Chain → Type 0
Unmixed cs =
    (e : String)
    → ((times e (names_of cs) ≡ 0) ⊎ (times e (aliases_of cs) ≡ 0))
      × ((times e ("health" ∷ ("dashboard" ∷ [])) ≡ 0)
          ⊎ ((times e (names_of cs) ≡ 0) × (times e (aliases_of cs) ≡ 0)))

abbrev Once : Table → Type 0
Once t = (e : String) → times e (keys t) ≤ 1

reserved-Once : Once reserved
reserved-Once e = elim (Bool-cases (str_eq "health" e)) [
  | inl k ↦ rw (← (str_eq_iff "health" e).0 k) (omega arith)
  | inr k ↦ rw k (ground arith)
]

separate :
    (e : String) (cs : List Chain)
    → (times e (names_of cs) ≤ 1) × (times e (aliases_of cs) ≤ 1)
    → (times e (names_of cs) ≡ 0) ⊎ (times e (aliases_of cs) ≡ 0)
    → (times e (keys reserved) ≡ 0) ⊎ ((times e (names_of cs) ≡ 0) × (times e (aliases_of cs) ≡ 0))
    → times e (keys reserved) ≤ 1
    → times e (names_of cs) + times e (aliases_of cs) + times e (keys reserved) ≤ 1
separate e cs (n, a) (inl x) (inl y) o = omega (arith, n, a, x, y, o)
separate e cs (n, a) (inl x) (inr (y, z)) o = omega (arith, n, a, x, y, z, o)
separate e cs (n, a) (inr x) (inl y) o = omega (arith, n, a, x, y, o)
separate e cs (n, a) (inr x) (inr (y, z)) o = omega (arith, n, a, x, y, z, o)

module _ {R : Type 0} (mount : String → Mounted → R → Option R) (table : R → Table)
    (law : MountsNew mount table) where
  -- Paths that are new and different are all mounted.
  abbrev Mounts : (R → Option R) → Table → Type 0
  Mounts f t =
      (r : R)
      → Once (table r ++ t)
      → ArePlain (keys (table r ++ t))
      → (r' : R) × ((f r ≡ some r') × (table r' ≡ table r ++ t))

  mount-Mounts : (p : String) (h : Mounted) → Mounts (mount p h) ((p, h) ∷ [])
  mount-Mounts p h r o a =
      law p h r (plain-right (table r) ((p, h) ∷ []) a).0 (plain-left (table r) _ a) (
        lookup-none p (table r) (
          let here = o p in
          let both = times-keys p (table r) ((p, h) ∷ []) in
          let same = (str_eq_iff p p).1 refl in ground arith))

  some-Mounts : Mounts some []
  some-Mounts r o a = (r, (refl, sym (append-nil (table r))))

  and_mount-Mounts :
      (f g : R → Option R) (s t : Table)
      → Mounts f s
      → Mounts g t
      → Mounts (λ r. and_mount (f r) g) (s ++ t)
  and_mount-Mounts f g s t mf mg r o a =
      let first = plain-left (table r ++ s) t (rw (append_assoc (table r) s t) a) in
      let (r1, (e1, t1)) =
        mf r
          (λ e. omega (
            arith,
            o e,
            times-keys e (table r) (s ++ t),
            times-keys e (table r) s,
            times-keys e s t,
          ))
          first in
      let both : table r1 ++ t ≡ table r ++ (s ++ t) =
        ap (λ l. l ++ t) t1 ∙ append_assoc (table r) s t in
      let (r2, (e2, t2)) = mg r1 (rw both o) (rw both a) in
      (r2, (ap (λ x. and_mount x g) e1 ∙ e2, t2 ∙ both))

  mount_each-Mounts :
      (h : Mounted) (paths : List String) → Mounts (mount_each mount h paths) (own h paths)
  unfolding mount_each
  mount_each-Mounts h [] = some-Mounts
  mount_each-Mounts h (p ∷ paths) =
      and_mount-Mounts (mount p h) (mount_each mount h paths) ((p, h) ∷ []) (own h paths)
        (mount-Mounts p h) (mount_each-Mounts h paths)

  mount_chains-Mounts : (cs : List Chain) → Mounts (mount_chains mount cs) (all cs)
  unfolding mount_chains
  mount_chains-Mounts [] = some-Mounts
  mount_chains-Mounts (c ∷ cs) =
      and_mount-Mounts (mount c.name (to_chain c))
        (λ r1. and_mount (mount_each mount (to_chain c) c.aliases r1) (mount_chains mount cs))
        ((c.name, to_chain c) ∷ []) (own (to_chain c) c.aliases ++ all cs)
        (mount-Mounts c.name (to_chain c))
        (and_mount-Mounts (mount_each mount (to_chain c) c.aliases) (mount_chains mount cs)
          (own (to_chain c) c.aliases) (all cs) (mount_each-Mounts (to_chain c) c.aliases)
          (mount_chains-Mounts cs))

  route-Mounts : (cs : List Chain) → Mounts (route mount cs) (all cs ++ reserved)
  unfolding route
  route-Mounts cs =
      and_mount-Mounts (mount_chains mount cs)
        (λ r1. and_mount (mount "health" health r1) (mount "dashboard" dashboard)) (all cs) reserved
        (mount_chains-Mounts cs)
        (and_mount-Mounts (mount "health" health) (mount "dashboard" dashboard)
          (("health", health) ∷ []) (("dashboard", dashboard) ∷ []) (mount-Mounts "health" health)
          (mount-Mounts "dashboard" dashboard))

  Once-all : (cs : List Chain) → Separate cs → Unmixed cs → Once (all cs ++ reserved)
  Once-all cs s u e =
      let (n, a) = s e in
      let split = times-keys e (all cs) reserved in
      let both = times-all e cs in
      let (x, y) = u e in
      let one = reserved-Once e in omega (arith, split, both, separate e cs (n, a) x y one)

  Once-perm :
      (cs order : List Chain)
      → Perm cs order
      → Once (all cs ++ reserved)
      → Once (all order ++ reserved)
  Once-perm cs order p o e = omega (
    arith,
    o e,
    times-perm e cs order p,
    times-keys e (all cs) reserved,
    times-keys e (all order) reserved,
  )

  -- When the configuration of a node is accepted, no alias is the name of a chain or a path of the node itself,
  -- and no name or alias is empty or has a slash, a brace or an asterisk, then building the routes does not panic, in whatever order the chains are visited,
  -- and the router leads from each name and each alias of a chain to that chain.
  pub route-serves :
      (expand_env : String → String) (unmarshal : String → Result NodeConfig) (file : Result String)
      (res : NodeConfigResult) (order : List Chain) (r : R) (i : ℕ) (c : Chain) (path : String)
      → node_file_parser expand_env unmarshal file ≡ ok res
      → Unmixed (values res.chains)
      → NamesPlain order
      → Perm (values res.chains) order
      → table r ≡ []
      → get_elem? order i ≡ some c
      → has path (c.name ∷ c.aliases) ≡ true
      → (r' : R) × ((route mount order r ≡ some r') × (lookup path (table r') ≡ some (to_chain c)))
  route-serves expand_env unmarshal file res order r i c path accepted u plain p empty g h =
      let s = node_file_parser-Separate expand_env unmarshal file res accepted in
      let once = Once-perm (values res.chains) order p (Once-all (values res.chains) s u) in
      let (r', (e, t)) =
        route-Mounts order r (rw empty once) (rw empty (routes-plain order plain)) in
      (
        r',
        (
          e,
          ap (lookup path) t
              ∙ rw empty (
                  lookup-all path order reserved i c
                    (omega (arith, once path, times-keys path (all order) reserved)) g h),
        ),
      )
