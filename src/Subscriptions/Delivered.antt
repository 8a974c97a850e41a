-- ===== src/Subscriptions/Delivered.antt =====
-- What the subscriptions of svc/node/atoms/subcenter/component.go deliver, over all their heads.
use venn.Subscriptions.Ranges.{from-eq, from-split, logs_from, logs_from-split}
use native.Mathlib.Nat.{le_trans}
use mathlib.Core.List.{map-append}
use venn.Prelude.{
  ℕ, zero, suc, ◌-◌, ◌≤◌, ◌<◌, ◌≡◌, refl, sym, ap, ◌∙◌, ◌⊎◌, inl, inr, Bool, true, some, List, [],
  ◌∷◌, map, arith,
}
use venn.Rpc.{Json, arr, of_list, Error, Chain, Handler, Hexutil, ok, err, do_raw}
use venn.Middlewares.Blocks.{remove_transactions}
use venn.Stores.Blocks.Recent.Sound.{from}
use venn.Subscriptions.{
  Event, head, Filter, new_heads, logs, number_args, logs_args, notified, on_block, send_blocks,
  send_logs, on_head, run,
}

abbrev pub heads : List ℕ → List Event
heads [] = []
heads (n ∷ ns) = head n ∷ heads ns

-- Each head is above the ones before it.
abbrev pub IsAscending : ℕ → List ℕ → Type 0
IsAscending current [] = Unit
IsAscending current (n ∷ ns) = (current < n) × IsAscending n ns

abbrev pub last : ℕ → List ℕ → ℕ
last current [] = current
last current (n ∷ ns) = last n ns

le-last : (current : ℕ) (ns : List ℕ) → IsAscending current ns → current ≤ last current ns
le-last current [] h = omega arith
le-last current (n ∷ ns) h = omega (arith, le-last n ns h.1)

module _ (hex : Hexutil) {S : Type 0} (next : Handler S) (chain : Chain)
    (notify : Json → S → Bool × S) (fine : (j : Json) (s : S) → (notify j s).0 ≡ true) where
  notified-sends :
      (j : Json) (s : S) (rest : S → List Json × S)
      → (notified hex next chain notify j s rest).0 ≡ j ∷ (rest (notify j s).1).0
  notified-sends j s rest = rw (fine j s) refl

  on_block-sends :
      (b j : Json) (s : S) (rest : S → List Json × S)
      → remove_transactions b ≡ some j
      → (on_block hex next chain notify (ok b) s rest).0 ≡ j ∷ (rest (notify j s).1).0
  on_block-sends b j s rest e = ground (arith, notified-sends j s rest)

  module _ (block cut : ℕ → Json)
      (got : (i : ℕ) (s : S)
        → (do_raw hex next
            (some chain)
            "eth_getBlockByNumber"
            (number_args hex next chain notify i)
            s).0
          ≡ ok (block i))
      (stripped : (i : ℕ) → remove_transactions (block i) ≡ some (cut i)) where
    send_blocks-all :
        (m i : ℕ) (s : S) → (send_blocks hex next chain notify m i s).0 ≡ map cut (from i m)
    unfolding send_blocks
    send_blocks-all zero i s = refl
    send_blocks-all (suc m) i s =
        rw (got i s, send_blocks)
          (on_block-sends (block i) (cut i) _ (send_blocks hex next chain notify m (suc i))
              (stripped i)
            ∙ ap (◌∷◌ (cut i)) (send_blocks-all m (suc i) _))

    -- Where every block can be got and rewritten, no notification fails, and each head is above the
    -- ones before it, a subscription to new heads delivers, without their transactions, the blocks
    -- from the one after the first head to the last head, each once and in order.
    pub run-new_heads :
        (current : ℕ) (ns : List ℕ) (s : S)
        → IsAscending current ns
        → (run hex next chain notify new_heads (heads ns) current s).0.0
          ≡ map cut (from (suc current) (last current ns - current))
    unfolding run on_head
    run-new_heads current [] s h =
        ap (map cut) (from-eq (suc current) (suc current) 0 (current - current) refl (omega arith))
    run-new_heads current (n ∷ ns) s h =
        let blocks = send_blocks-all (n - current) (suc current) s in
        let later =
          run-new_heads n ns (send_blocks hex next chain notify (n - current) (suc current) s).1
            h.1 in
        rw (blocks, later)
          (sym (map-append cut (from (suc current) (n - current)) _)
            ∙ ap (map cut) (from-split current n (last n ns) (omega arith) (le-last n ns h.1)))

  send_logs-all : (js : List Json) (s : S) → (send_logs hex next chain notify (of_list js) s).0 ≡ js
  unfolding send_logs of_list
  send_logs-all [] s = refl
  send_logs-all (j ∷ js) s =
      notified-sends j s (send_logs hex next chain notify (of_list js))
      ∙ ap (◌∷◌ j) (send_logs-all js _)

  zero-sub : (n : ℕ) → 0 ≡ n - n
  zero-sub n = omega arith

  sub_suc : (n m : ℕ) → suc n - suc m ≡ n - m
  sub_suc n m = omega arith

  module _ (q : Filter hex) (per : ℕ → List Json)
      (got : (from to : ℕ) (s : S)
        → let answer =
            do_raw hex next
              (some chain)
              "eth_getLogs"
              (logs_args hex next chain notify q from to)
              s in
          ((e : Error) × (answer.0 ≡ err e))
          ⊎ (answer.0 ≡ ok (arr (of_list (logs_from per from (suc to - from)))))) where
    -- What is delivered, and how far the subscription has come.
    abbrev Covers : ℕ → (List Json × S) × ℕ → Type 0
    Covers current (sends, reached) =
        (current ≤ reached) × (sends.0 ≡ logs_from per (suc current) (reached - current))

    on_head-Covers :
        (current n : ℕ) (s : S)
        → current ≤ n
        → Covers current (on_head hex next chain notify (logs q) current n s)
          × ((on_head hex next chain notify (logs q) current n s).1 ≤ n)
    unfolding on_head
    on_head-Covers current n s h = elim (got (suc current) n s) [
      | inl (e, bad) ↦
          rw (bad, on_head) ((omega arith, ap (logs_from per (suc current)) (zero-sub current)), h)
      | inr good ↦
          rw (good, on_head)
            (
              (
                h,
                send_logs-all (logs_from per (suc current) (suc n - suc current)) _
                    ∙ ap (logs_from per (suc current)) (sub_suc n current),
              ),
              omega arith,
            )
    ]

    run-Covers :
        (bound : ℕ) (ns : List ℕ) (current : ℕ) (s : S)
        → current ≤ bound
        → IsAscending bound ns
        → Covers current (run hex next chain notify (logs q) (heads ns) current s)
    unfolding run
    run-Covers bound [] current s b h =
        (omega arith, ap (logs_from per (suc current)) (zero-sub current))
    run-Covers bound (n ∷ ns) current s b h =
        let first = on_head hex next chain notify (logs q) current n s in
        let (here, below) = on_head-Covers current n s (omega arith) in
        let later = run-Covers n ns first.1 first.0.1 below h.1 in
        (
          le_trans here.0 later.0,
          rw (here.1, later.1) (logs_from-split per current first.1 _ here.0 later.0),
        )

    -- Where a request for the logs of a range fails or gets the logs of its blocks, no notification
    -- fails, and each head is above the ones before it, a subscription to logs that has come to a
    -- block delivers the logs of all blocks after the first head up to that one, each once and in order,
    -- whichever of its requests have failed.
    pub run-logs :
        (current : ℕ) (ns : List ℕ) (s : S)
        → IsAscending current ns
        → let (sends, reached) = run hex next chain notify (logs q) (heads ns) current s in
          (current ≤ reached) × (sends.0 ≡ logs_from per (suc current) (reached - current))
    run-logs current ns s h = run-Covers current ns current s (omega arith) h
