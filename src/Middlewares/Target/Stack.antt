-- ===== src/Middlewares/Target/Stack.antt =====
-- What holds of the whole stack of svc/node/quarks/cluster/cluster.go, whatever the connection does.
use venn.Prelude.{
  ℕ, zero, suc, ◌≤◌, ◌≡◌, refl, String, Bool, Option, none, some, List, arith, length,
}
use venn.Prelude.Int.{ℤ}
use venn.Rpc.{Chain, Request, Handler, Hexutil, Result, do_raw, arr, nil, doc}
use venn.Callcenter.Backer.{serve as back}
use venn.Callcenter.Validator.{block_by_number, block_number, never_null, serve as validate}
use venn.Callcenter.Validator.Replies.{serve-head-le}
use venn.Callcenter.Doctor.{Doctor, check, can_use, do_uint64, serve as doctor}
use venn.Middlewares.Guards.{filterer, ratelimiter}
use venn.Middlewares.LookBack.{BlockLookBack, serve as look_back}
use venn.Middlewares.Target.{Target, at_target, inner, validated, guarded, target}

abbrev OneReply : {S : Type 0} → Handler S → Type 0
OneReply {S} h = (r : Request) (s : S) → length (h r s).0 ≡ 1

module _ {S : Type 0} (next : Handler S) where
  back-OneReply : OneReply (back next)
  unfolding back
  back-OneReply r (b, s) = ground arith

  filterer-OneReply :
      (methods : List (String × Bool)) → OneReply next → OneReply (filterer methods next)
  unfolding filterer
  filterer-OneReply methods one r s = ground (arith, one r s)

  ratelimiter-OneReply : (allow : S → Bool × S) → OneReply next → OneReply (ratelimiter allow next)
  unfolding ratelimiter
  ratelimiter-OneReply allow one r s = ground (arith, one r (allow s).1)

  look_back-OneReply :
      (hex : Hexutil) (get : Chain → S → Result ℕ) (m : BlockLookBack)
      → OneReply next
      → OneReply (look_back hex get m next)
  unfolding look_back
  look_back-OneReply hex get m one r s = ground (arith, one r s)

  validate-OneReply :
      (hex : Hexutil) (clock : S → ℤ) (too_slow : S → Bool)
      → OneReply next
      → OneReply (validate hex clock too_slow next)
  unfolding validate block_by_number block_number never_null
  validate-OneReply hex clock too_slow one r (v, s) = ground (arith, one r s)

  doctor-OneReply : (hex : Hexutil) → OneReply next → OneReply (doctor hex next)
  unfolding doctor
  doctor-OneReply hex one r (d, s) = ground (arith, one r (can_use hex next 2 (d, s)).1.1)

abbrev Keeps : {S : Type 0} → (S → ℕ) → Handler S → Type 0
Keeps {S} f h = (r : Request) (s : S) → f s ≤ f (h r s).1

module _ {S : Type 0} (f : S → ℕ) (next : Handler S) where
  filterer-Keeps : (methods : List (String × Bool)) → Keeps f next → Keeps f (filterer methods next)
  unfolding filterer
  filterer-Keeps methods k r s = ground (arith, k r s)

  ratelimiter-Keeps :
      (allow : S → Bool × S)
      → ((s : S) → f (allow s).1 ≡ f s)
      → Keeps f next
      → Keeps f (ratelimiter allow next)
  unfolding ratelimiter
  ratelimiter-Keeps allow same k r s = ground (arith, same s, k r (allow s).1)

  look_back-Keeps :
      (hex : Hexutil) (get : Chain → S → Result ℕ) (m : BlockLookBack)
      → Keeps f next
      → Keeps f (look_back hex get m next)
  unfolding look_back
  look_back-Keeps hex get m k r s = ground (arith, k r s)

  do_uint64-Keeps :
      (hex : Hexutil) (method : String) (s : S)
      → Keeps f next
      → f s ≤ f (do_uint64 hex next method s).1
  unfolding do_uint64 do_raw
  do_uint64-Keeps hex method s k =
      ground (arith, k (record { method = method; params = doc (arr nil); chain = none }) s)

  check-Keeps :
      (hex : Hexutil) (d : Doctor) (s : S) → Keeps f next → f s ≤ f (check hex next (d, s)).1
  unfolding check
  check-Keeps hex d s k = ground (
    arith,
    do_uint64-Keeps hex "eth_blockNumber" s k,
    do_uint64-Keeps hex "eth_chainId" (do_uint64 hex next "eth_blockNumber" s).1 k,
  )

  can_use-Keeps :
      (hex : Hexutil) (fuel : ℕ) (d : Doctor) (s : S)
      → Keeps f next
      → f s ≤ f (can_use hex next fuel (d, s)).1.1
  unfolding can_use
  can_use-Keeps hex zero d s k = omega arith
  can_use-Keeps hex (suc fuel) d s k = ground (
    arith,
    check-Keeps hex d s k,
    can_use-Keeps hex fuel (check hex next (d, s)).0 (check hex next (d, s)).1 k,
  )

  doctor-Keeps :
      (hex : Hexutil) → Keeps f next → Keeps (λ (t : Doctor × S). f t.1) (doctor hex next)
  unfolding doctor
  doctor-Keeps hex k r (d, s) =
      ground (arith, can_use-Keeps hex 2 d s k, k r (can_use hex next 2 (d, s)).1.1)

module _ (hex : Hexutil) {S : Type 0} (clock : S → ℤ) (too_slow : S → Bool) (allow : S → Bool × S)
    (get : Chain → S → Result ℕ) (methods : List (String × Bool)) (proxier : Handler S) where
  guarded-OneReply : OneReply (guarded hex clock too_slow allow get methods proxier)
  unfolding guarded validated inner
  guarded-OneReply = filterer-OneReply _ methods (
      ratelimiter-OneReply _ (at_target allow)
        (doctor-OneReply _ hex (validate-OneReply _ hex _ _ (back-OneReply _))))

  -- A remote sends exactly one reply to every request, whatever the state of its middlewares is and
  -- however often the connection sends.
  pub target-OneReply :
      (m : Option BlockLookBack) (r : Request) (t : Target S)
      → length (target hex clock too_slow allow get m methods proxier r t).0 ≡ 1
  unfolding target
  target-OneReply none r t = guarded-OneReply r t
  target-OneReply (some m) r t = look_back-OneReply _ hex _ m guarded-OneReply r t

  guarded-Keeps :
      Keeps (λ (t : Target S). t.1.0.head) (guarded hex clock too_slow allow get methods proxier)
  unfolding guarded validated
  guarded-Keeps = filterer-Keeps _ _ methods (
      ratelimiter-Keeps _ _ (at_target allow) (λ t. refl)
        (doctor-Keeps (λ t. t.0.head) _ hex (λ r (v, s). serve-head-le hex _ _ _ r v s)))

  -- Through the whole stack of a remote, its health checks included, the head of its validator never
  -- goes back.
  pub target-head-le :
      (m : Option BlockLookBack) (r : Request) (t : Target S)
      → t.1.0.head ≤ (target hex clock too_slow allow get m methods proxier r t).1.1.0.head
  unfolding target
  target-head-le none r t = guarded-Keeps r t
  target-head-le (some m) r t =
      look_back-Keeps (λ (t : Target S). t.1.0.head) _ hex _ m guarded-Keeps r t
