-- ===== src/Callcenter/Doctor.antt =====
-- lib/callcenter/doctor.go. The latency window of a third-party package and the metrics other than
-- the status are left out.
pub mod Checks
pub mod Loop
pub mod Schedule
use Prim.Native.String.{◌++◌ as ◌⧺◌}
use venn.Prelude.{
  ℕ, zero, suc, ◌-◌, ◌^◌, String, Bool, true, false, not, Option, none, some, List, [], ◌∷◌, ltb,
  if◌then◌else◌,
}
use venn.Prelude.Int.{ℤ, pos, negsuc, eqb_ℤ}
use venn.Prelude.Duration.{Duration, double, min}
use venn.Rpc.{
  Json, arr, nil, Error, plain, internal_error, Request, Reply, failed, Handler, Hexutil, Result,
  ok, err, do_raw,
}

pub data Health : Type 0 where
  unknown healthy unhealthy : Health

-- `lastError`: a text, or the mismatch that `fmt.Sprintf` spells out.
pub data Complaint : Type 0 where
  said : String → Complaint
  mismatch : ℤ → ℤ → Complaint

-- `time.Timer`: set for a time, expired with its tick in the channel, or neither.
pub data Timer : Type 0 where
  running : Duration → Timer
  due idle : Timer

pub record Doctor : Type 0 where
  pub chain_id : ℤ
  pub chain_name : String
  pub remote_name : String
  pub min_interval : Duration
  pub max_interval : Duration
  pub timer : Timer
  pub health : Health
  pub interval : Duration
  pub last_error : Complaint
  -- the gauge prom.RemoteHealth.Status
  pub status : Option ℤ
  pub closed : Bool

-- `NewDoctor`, and the timer that `Middleware` starts.
unfoldable pub new_doctor : ℤ → String → String → Duration → Duration → Doctor
new_doctor chain_id chain_name remote_name min_interval max_interval = record {
  chain_id = chain_id;
  chain_name = chain_name;
  remote_name = remote_name;
  min_interval = min_interval;
  max_interval = max_interval;
  timer = running min_interval;
  health = unknown;
  interval = min_interval;
  last_error = said "";
  status = none;
  closed = false;
}

-- `int(x)` of a `uint64`
unfoldable pub to_int : ℕ → ℤ
to_int n = if ltb n (2 ^ 63) then pos n else negsuc (2 ^ 64 - n - 1)

-- The failure branches of `check`: the gauge is -1 for the first request and 0 for the second.
abbrev pub fail : Complaint → ℤ → Doctor → Doctor
fail complaint status d = record d {
  health = unhealthy;
  last_error = complaint;
  interval = d.min_interval;
  timer = running d.min_interval;
  status = some status;
}

abbrev pub pass : Doctor → Doctor
pass d =
    let interval = min d.max_interval (double d.interval) in
    record d {
      health = healthy;
      last_error = said "";
      interval = interval;
      timer = running interval;
      status = some (pos 1);
    }

-- The switch of `check` over the answer to `eth_chainId`.
unfoldable pub note_chain_id : Result ℕ → Doctor → Doctor
unfolding to_int
note_chain_id (err e) d = fail (said e.text) (pos 0) d
note_chain_id (ok n) d =
    if not (eqb_ℤ (to_int n) d.chain_id)
    then fail (mismatch d.chain_id (to_int n)) (pos 0) d
    else pass d

-- The first lock of `CanUse`; `none` means that it waits for the first check.
unfoldable pub can_use_now : Doctor → Option Bool × Doctor
can_use_now d = elim d.health [
  | healthy ↦ (some true, record d { interval = d.min_interval; timer = running d.min_interval })
  | unhealthy ↦ (some false, d)
  | unknown ↦ (none, d)
]

unfoldable pub close : Doctor → Bool × Doctor
close d = if d.closed then (false, d) else (true, record d { closed = true })

-- The text that `fmt.Sprintf` makes of the two names.
abbrev pub err_unhealthy : Doctor → Error
err_unhealthy d =
    internal_error ("remote '" ⧺ d.remote_name ⧺ "' on chain '" ⧺ d.chain_name ⧺ "' is unhealthy")

module _ {ℓ} (hex : Hexutil) {S : Type ℓ} (remote : Handler S) where
  -- `jrpcutil.Do` into a `hexutil.Uint64`, with no arguments. The doctor's context has no chain.
  unfoldable pub do_uint64 : String → S → Result ℕ × S
  do_uint64 method s =
      let (answer, s') = do_raw hex remote none method (arr nil) s in
      elim answer [
        | err e ↦ (err e, s')
        | ok j ↦ elim (hex.decode_uint64 j) [
          | none ↦ (err (plain "cannot unmarshal"), s')
          | some n ↦ (ok n, s')
        ]
      ]

  unfoldable pub check : Doctor × S → Doctor × S
  check (d, s) =
      let (number, s') = do_uint64 "eth_blockNumber" s in
      elim number [
        | err e ↦ (fail (said e.text) (negsuc 0) d, s')
        | ok _ ↦ let (chain_id, s'') = do_uint64 "eth_chainId" s' in (note_chain_id chain_id d, s'')
      ]

  -- `CanUse` calls itself after the wait, in which the pending first check completes.
  unfoldable pub can_use : ℕ → Doctor × S → Option Bool × (Doctor × S)
  can_use zero (d, s) = (none, (d, s))
  can_use (suc fuel) (d, s) =
      let waited = can_use fuel (check (d, s)) in
      let (answer, d') = can_use_now d in elim answer [ some b ↦ (some b, (d', s)) | none ↦ waited ]

  -- Two rounds are enough; the theorems show it.
  unfoldable pub serve : Handler (Doctor × S)
  serve r (d, s) =
      let (answer, (d', s')) = can_use 2 (d, s) in
      elim answer [
        | some true ↦ let (sends, s'') = remote r s' in (sends, (d', s''))
        | _ ↦ (failed (err_unhealthy d') ∷ [], (d', s'))
      ]
