-- ===== src/Node/Paths.antt =====
-- The paths on which svc/app/node/api.go and dashboard/handler.go serve a node. `mount` is `Mount` of chi's
-- router without the slash; `none` is its panic.
use venn.Prelude.{String, Option, none, some, List, [], ◌∷◌}
use venn.Config.{Chain}

pub data Mounted : Type 0 where
  to_chain : Chain → Mounted
  health : Mounted
  dashboard : Mounted

abbrev pub and_mount : {R : Type 0} → Option R → (R → Option R) → Option R
and_mount none f = none
and_mount (some r) f = f r

module _ {R : Type 0} (mount : String → Mounted → R → Option R) where
  unfoldable pub mount_each : Mounted → List String → R → Option R
  mount_each h [] r = some r
  mount_each h (p ∷ paths) r = and_mount (mount p h r) (mount_each h paths)

  -- The loop over the chains, which come in any order.
  unfoldable pub mount_chains : List Chain → R → Option R
  unfolding mount_each
  mount_chains [] r = some r
  mount_chains (c ∷ chains) r =
      and_mount (mount c.name (to_chain c) r)
        (λ r1. and_mount (mount_each (to_chain c) c.aliases r1) (mount_chains chains))

  -- `r.Route` of the result of `New`
  unfoldable pub route : List Chain → R → Option R
  unfolding mount_chains
  route chains r =
      and_mount (mount_chains chains r)
        (λ r1. and_mount (mount "health" health r1) (mount "dashboard" dashboard))
