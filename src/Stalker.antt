-- ===== src/Stalker.antt =====
-- svc/node/atoms/stalker/stalker.go: asking for the latest block, and how long to wait after it. The lease of the
-- election, the log and the metrics are left out.
pub mod Delay
pub mod Waiting
pub mod Loop
pub mod Tracked
use venn.Prelude.{
  ℕ, zero, suc, ◌+◌, ◌-◌, ◌*◌, ◌/◌, ◌^◌, String, Bool, true, false, Option, none, some, List, [],
  ◌∷◌, ltb, ◌==◌, if◌then◌else◌, str_eq,
}
use venn.Prelude.Int.{ℤ, pos, negsuc, ◌+ℤ◌, ◌-ℤ◌, leb_ℤ, ltb_ℤ}
use venn.Prelude.Int64.{wrap, times, quotient, saturate}
use venn.Prelude.Duration.{Duration, millisecond, halve, min, max}
use venn.Prelude.Maps.{lookup, insert}
use venn.Rpc.{
  Json, null, bool, str, arr, nil, cons, obj, Fields, end, field, is_null, Error, decode_error,
  Chain, Request, Handler, Hexutil, Result, ok, err, do_raw,
}
use venn.Ethtypes.Filter.{key_is}
use venn.Callcenter.Validator.{unix, latest_args}
use venn.Stores.Head.{Store}
use venn.Stalker.Delay.{DelayTracker, add}

-- `max(time.Duration(chain.BlockTimeSeconds*float64(time.Second)), 500*time.Millisecond)`
abbrev pub half_second : Duration
half_second = pos (500 * millisecond)

unfoldable pub block_time : Chain → Duration
unfolding max
block_time chain = max (pos chain.block_time) half_second

-- `nextTime.Sub(now)`
unfoldable pub remaining : ℕ → Duration → ℤ → Duration
unfolding saturate
remaining timestamp time now = saturate ((unix timestamp +ℤ time) -ℤ now)

-- A mean above a quarter of a second makes the wait longer.
unfoldable pub add_mean : Duration → ℤ → Duration
add_mean next mean =
    if ltb_ℤ (pos 0) (wrap (mean -ℤ pos (250 * millisecond)))
    then wrap (next +ℤ quotient (wrap (times mean 9)) 10)
    else next

-- The wait after a new block, given the mean of the delays.
unfoldable pub wait_new : Duration → Duration → ℤ → Duration
unfolding min max add_mean
wait_new left time mean = add_mean (max (max (min left time) half_second) (halve time)) mean

-- The wait after a block that was known already.
unfoldable pub wait_known : Duration → Duration → Duration
unfolding min max
wait_known left time =
    if ltb_ℤ (pos 0) left
    then min (max left half_second) time
    else max half_second (quotient time 4)

-- A new block gives a point of data where it came before the next one was due.
abbrev pub observe : Duration → DelayTracker → DelayTracker
observe left t = if ltb_ℤ (pos 0) left then add left t else t

module _ (hex : Hexutil) where
  -- `json.Unmarshal` into the number and the timestamp.
  unfoldable pub scan_head : Fields → ℕ → ℕ → Option (ℕ × ℕ)
  scan_head end number timestamp = some (number, timestamp)
  scan_head (field k v fs) number timestamp =
      let as_number : Option (ℕ × ℕ) = elim (hex.decode_uint64 v) [
        | none ↦ none
        | some n ↦ scan_head fs n timestamp
      ] in
      let as_timestamp : Option (ℕ × ℕ) = elim (hex.decode_uint64 v) [
        | none ↦ none
        | some ts ↦ scan_head fs number ts
      ] in
      let rest = scan_head fs number timestamp in
      if key_is "number" k then as_number else if key_is "timestamp" k then as_timestamp else rest

  unfoldable pub read_head : Json → Option (ℕ × ℕ)
  unfolding scan_head
  read_head (obj fs) = scan_head fs 0 0
  read_head _ = none

  module _ {S : Type 0} (clock : S → ℤ) (store : Store S) where
    -- After the store has answered, with the trackers by the names of their chains. `none` is a panic: a chain
    -- without a tracker.
    unfoldable pub after_put :
        Chain
        → ℕ
        → ℕ
        → ℤ
        → Result ℕ
        → List (String × DelayTracker)
        → Option ((Duration × Option Error) × List (String × DelayTracker))
    after_put chain number timestamp now (err e) dt = some ((block_time chain, some e), dt)
    after_put chain number timestamp now (ok prev) dt =
        let time = block_time chain in
        let left = remaining timestamp time now in
        if prev == number
        then some ((wait_known left time, none), dt)
        else elim (lookup chain.name dt) [
          | none ↦ none
          | some t ↦
              let t' = observe left t in
              some ((wait_new left time t'.mean, none), insert chain.name t' dt)
        ]

    abbrev pub with_state :
        S
        → Option ((Duration × Option Error) × List (String × DelayTracker))
        → Option ((Duration × Option Error) × (List (String × DelayTracker) × S))
    with_state s none = none
    with_state s (some (answer, dt)) = some (answer, (dt, s))

    abbrev pub put_head :
        Chain
        → ℤ
        → ℕ
        → ℕ
        → Option (Result ℕ × S)
        → List (String × DelayTracker)
        → Option ((Duration × Option Error) × (List (String × DelayTracker) × S))
    put_head chain now number timestamp none dt = none
    put_head chain now number timestamp (some (prev, s)) dt =
        with_state s (after_put chain number timestamp now prev dt)

    abbrev pub after_block :
        Chain
        → Result Json
        → S
        → List (String × DelayTracker)
        → Option ((Duration × Option Error) × (List (String × DelayTracker) × S))
    after_block chain (err e) s dt = some ((block_time chain, some e), (dt, s))
    after_block chain (ok block) s dt =
        if is_null block then some ((block_time chain, none), (dt, s)) else elim (read_head block) [
          | none ↦ some ((block_time chain, some decode_error), (dt, s))
          | some h ↦ put_head chain (clock s) h.0 h.1 (store.put chain h.0 s) dt
        ]

    unfoldable pub tick :
        Handler S
        → Chain
        → List (String × DelayTracker)
        → S
        → Option ((Duration × Option Error) × (List (String × DelayTracker) × S))
    unfolding after_put read_head block_time
    tick cluster chain dt s =
        let (block, s') = do_raw hex cluster (some chain) "eth_getBlockByNumber" latest_args s in
        after_block chain block s' dt
