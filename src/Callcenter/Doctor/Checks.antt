-- ===== src/Callcenter/Doctor/Checks.antt =====
-- When a doctor (lib/callcenter/doctor.go) lets requests through.
use venn.Prelude.{inl, inr, ℕ, ◌≡◌, ◌≢◌, refl, ◌↔◌, Bool, true, false, some, arith}
use venn.Prelude.Int.{eqb_ℤ}
use venn.Rpc.{Handler, Hexutil, Result, ok, err, Result-cases}
use venn.Callcenter.Doctor.{
  Health, unknown, healthy, Doctor, to_int, note_chain_id, can_use_now, do_uint64, check, can_use,
}

abbrev pub is_healthy : Health → Bool
is_healthy healthy = true
is_healthy _ = false

-- The answer of `eth_chainId` is the doctor's chain.
abbrev pub Confirms : Result ℕ → Doctor → Type 0
Confirms (err e) d = ⊥
Confirms (ok n) d = eqb_ℤ (to_int n) d.chain_id ≡ true

note_chain_id-healthy_iff :
    (a : Result ℕ) (d : Doctor) → ((note_chain_id a d).health ≡ healthy) ↔ Confirms a d
unfolding note_chain_id
note_chain_id-healthy_iff (err e) d = (λ h. cc, λ h. absurd h)
note_chain_id-healthy_iff (ok n) d = ground arith

note_chain_id-known : (a : Result ℕ) (d : Doctor) → (note_chain_id a d).health ≢ unknown
unfolding note_chain_id
note_chain_id-known (err e) d = ground arith
note_chain_id-known (ok n) d = ground arith

module _ (hex : Hexutil) {S : Type 0} (remote : Handler S) where
  -- After a check the remote is healthy exactly if it answered `eth_blockNumber` and then
  -- `eth_chainId` with a number each, the second the number of the chain.
  pub check-healthy_iff :
      (d : Doctor) (s : S)
      → let block = do_uint64 hex remote "eth_blockNumber" s in
        ((check hex remote (d, s)).0.health ≡ healthy)
        ↔ (((n : ℕ) × (block.0 ≡ ok n)) × Confirms (do_uint64 hex remote "eth_chainId" block.1).0 d)
  unfolding check
  check-healthy_iff d s =
      let block = do_uint64 hex remote "eth_blockNumber" s in
      let answer = (do_uint64 hex remote "eth_chainId" block.1).0 in
      elim (Result-cases block.0) [
        | inl (e, bad) ↦ rw (bad, check) (λ h. absurd (ground arith), λ h. absurd (ground arith))
        | inr (n, got) ↦
            rw (got, check)
              (
                λ h. ((n, refl), (note_chain_id-healthy_iff answer d).0 h),
                λ h. (note_chain_id-healthy_iff answer d).1 h.1,
              )
      ]

  check-known : (d : Doctor) (s : S) → (check hex remote (d, s)).0.health ≢ unknown
  unfolding check
  check-known d s =
      let block = do_uint64 hex remote "eth_blockNumber" s in
      let answer = (do_uint64 hex remote "eth_chainId" block.1).0 in
      elim (Result-cases block.0) [
        | inl (e, bad) ↦ rw (bad, check) (ground arith)
        | inr (n, got) ↦ rw (got, check) (note_chain_id-known answer d)
      ]

  -- `CanUse` always comes to an answer, within two rounds of its recursion and whatever the remote
  -- does: afterwards the health is known, and the answer is whether the remote is healthy.
  pub can_use-answers :
      (d : Doctor) (s : S)
      → ((can_use hex remote 2 (d, s)).0
          ≡ some (is_healthy (can_use hex remote 2 (d, s)).1.0.health))
        × ((can_use hex remote 2 (d, s)).1.0.health ≢ unknown)
  unfolding can_use can_use_now
  can_use-answers d s = ground (arith, check-known d s)
