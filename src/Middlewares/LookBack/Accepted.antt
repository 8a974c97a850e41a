-- ===== src/Middlewares/LookBack/Accepted.antt =====
-- Which blocks svc/node/middlewares/blockLookBack/blockLookBack.go lets through.
use venn.Prelude.{ℕ, ◌-◌, ◌^◌, ◌≤◌, ◌<◌, ◌≡◌, ◌≢◌, ◌⊎◌, ◌↔◌, Option, none, some, arith}
use venn.Prelude.Int.{ℤ, pos, negsuc, ◌≤ℤ◌, ◌+ℤ◌, +ℤ_parts}
use venn.Rpc.{Chain, Result, ok}
use venn.Middlewares.LookBack.{BlockLookBack, effective, sub_uint64, is_too_old, validate}

-- A limit of 0 is no limit.
abbrev pub Allows : ℤ → ℤ → Type 0
Allows limit depth = (limit ≡ pos 0) ⊎ (depth ≤ℤ limit)

abbrev pub AllowsOption : Option ℤ → ℤ → Type 0
AllowsOption none depth = Unit
AllowsOption (some limit) depth = Allows limit depth

-- The limit that is used allows exactly the depths that the chain's limit and the remote's limit both allow, where
-- a limit of 0 and an absent remote allow all.
pub effective-Allows_iff :
    (m : BlockLookBack) (depth : ℤ)
    → Allows (effective m) depth ↔ (Allows m.chain_limit depth × AllowsOption m.remote_limit depth)
unfolding effective
effective-Allows_iff m depth = ground arith

module _ {S : Type 0} (get : Chain → S → Result ℕ) (m : BlockLookBack) where
  -- With a chain in the context, a head below 2^63 from the store, and a limit above 0 that is at
  -- most the head, a block number is accepted exactly if it is one of the named tags other than
  -- `earliest`, or a number above 0 that lies at most the limit below the head.
  pub validate-accepts_iff :
      (c : Chain) (s : S) (head limit : ℕ) (bn : ℤ)
      → effective m ≡ pos limit
      → 0 < limit
      → limit ≤ head
      → head < 2 ^ 63
      → bn ≤ℤ pos (2 ^ 63 - 1)
      → get c s ≡ ok head
      → (validate get m (some c) bn s ≡ none)
        ↔ ((bn ≤ℤ negsuc 0) ⊎ ((pos 1 ≤ℤ bn) × (pos head ≤ℤ bn +ℤ pos limit)))
  unfolding validate is_too_old sub_uint64
  validate-accepts_iff c s head limit bn e p l h b g = ground (arith, +ℤ_parts bn (pos limit))

  -- With a chain in the context, a head from the store, and a limit below 2^63, while the head is
  -- below the limit, every block number from 1 to 2^63 - 1 is refused: the difference of unsigned
  -- numbers wraps around.
  pub validate-wraps :
      (c : Chain) (s : S) (head limit bn : ℕ)
      → effective m ≡ pos limit
      → limit < 2 ^ 63
      → head < limit
      → 0 < bn
      → bn < 2 ^ 63
      → get c s ≡ ok head
      → validate get m (some c) (pos bn) s ≢ none
  unfolding validate is_too_old sub_uint64
  validate-wraps c s head limit bn e l h p b g = ground arith
