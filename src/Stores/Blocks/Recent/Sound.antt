-- ===== src/Stores/Blocks/Recent/Sound.antt =====
-- What lib/stores/blockstore/lru.go answers after any calls.
use mathlib.Core.Path.{subst}
use venn.Prelude.{
  ℕ, zero, suc, ◌-◌, ◌≡◌, inl, inr, refl, sym, ap, ◌∙◌, Bool, Option, none, some, List, [], ◌∷◌,
  arith, map, Option-cases, Bool-cases,
}
use venn.Rpc.{Chain, Result, ok, err}
use venn.Middlewares.LookBack.{sub_uint64}
use venn.Stores.Blocks.{EntryType, Entry, Query, range, hash}
use venn.Stores.Blocks.Recent.Keys.{
  NumbersRight, HashesRight, numbers_get, numbers_add, hashes_add, numbers_check_parent,
}
use venn.Stores.Blocks.Recent.{
  Lru, NumberKey, HashKey, LruStore, new_lru_store, number_key, cons_entry, scan, get, on_found,
  put_entry, put,
}

-- The numbers from `i` on.
abbrev pub from : ℕ → ℕ → List ℕ
from i zero = []
from i (suc m) = i ∷ from (suc i) m

module _ {H : Type 0} (dec : Discrete H) (hashes : Lru (HashKey H) (Entry H))
    (numbers : Lru NumberKey (Entry H)) where
  scan-right :
      (chain : Chain) (typ : EntryType) (m i : ℕ) (c : numbers.Cache)
      → NumbersRight dec hashes numbers c
      → NumbersRight dec hashes numbers (scan dec hashes numbers chain typ m i c).1
  unfolding scan
  scan-right chain typ zero i c h = h
  scan-right chain typ (suc m) i c h =
      let key = number_key dec hashes numbers chain typ i in
      let after = numbers_get dec hashes numbers key c h in
      elim (Option-cases (numbers.get key c).0) [
        | inl e ↦
            subst
              (λ (o : Option (Entry H)).
                NumbersRight dec hashes numbers
                  (on_found dec hashes numbers o (numbers.get key c).1
                    (scan dec hashes numbers chain typ m (suc i))).1)
              (sym e) after
        | inr (x, e) ↦
            subst
              (λ (o : Option (Entry H)).
                NumbersRight dec hashes numbers
                  (on_found dec hashes numbers o (numbers.get key c).1
                    (scan dec hashes numbers chain typ m (suc i))).1)
              (sym e) (scan-right chain typ m (suc i) (numbers.get key c).1 after)
      ]

  found-number :
      (key : NumberKey) (c : numbers.Cache) (e : Entry H)
      → NumbersRight dec hashes numbers c
      → (numbers.get key c).0 ≡ some e
      → e.block_number ≡ key.block_number
  found-number key c e h p = h key e (sym (numbers.get-peek key c) ∙ p)

  abbrev Numbered : Result (List (Entry H)) → List ℕ → Type 0
  Numbered (err x) ns = Unit
  Numbered (ok es) ns = map Entry.block_number es ≡ ns

  cons_entry-Numbered :
      (e : Entry H) (r : Result (List (Entry H))) (i : ℕ) (ns : List ℕ)
      → e.block_number ≡ i
      → Numbered r ns
      → Numbered (cons_entry dec hashes numbers e r) (i ∷ ns)
  cons_entry-Numbered e (err x) i ns q h = tt
  cons_entry-Numbered e (ok rest) i ns q h =
      ap (λ (n : ℕ). n ∷ map Entry.block_number rest) q ∙ ap (λ (l : List ℕ). i ∷ l) h

  scan-Numbered :
      (chain : Chain) (typ : EntryType) (m i : ℕ) (c : numbers.Cache)
      → NumbersRight dec hashes numbers c
      → Numbered (scan dec hashes numbers chain typ m i c).0 (from i m)
  unfolding scan
  scan-Numbered chain typ zero i c h = refl
  scan-Numbered chain typ (suc m) i c h =
      let key = number_key dec hashes numbers chain typ i in
      let next = (numbers.get key c).1 in
      elim (Option-cases (numbers.get key c).0) [
        | inl e ↦
            subst
              (λ (o : Option (Entry H)).
                Numbered
                  (on_found dec hashes numbers o next
                    (scan dec hashes numbers chain typ m (suc i))).0
                  (i ∷ from (suc i) m))
              (sym e) tt
        | inr (x, e) ↦
            subst
              (λ (o : Option (Entry H)).
                Numbered
                  (on_found dec hashes numbers o next
                    (scan dec hashes numbers chain typ m (suc i))).0
                  (i ∷ from (suc i) m))
              (sym e)
              (cons_entry-Numbered x _ i _ (found-number key c x h e)
                (scan-Numbered chain typ m (suc i) next (numbers_get dec hashes numbers key c h)))
      ]

  abbrev IsSound : LruStore dec hashes numbers → Type 0
  IsSound st =
      NumbersRight dec hashes numbers st.by_number × HashesRight dec hashes numbers st.by_hash

  put-IsSound :
      (chain : Chain) (typ : EntryType) (entries : List (Entry H))
      (st : LruStore dec hashes numbers)
      → IsSound st
      → IsSound (put dec hashes numbers chain typ entries st)
  unfolding put put_entry
  put-IsSound chain typ [] st h = h
  put-IsSound chain typ (e ∷ es) st (n, h) =
      put-IsSound chain typ es (put_entry dec hashes numbers chain typ e st) (
        numbers_add dec hashes numbers _ e _ refl (
            numbers_check_parent dec hashes numbers chain typ e.block_number e.parent_hash
              st.by_number n),
        hashes_add dec hashes numbers _ e st.by_hash refl h,
      )

  -- What reaches the store.
  pub data Call : Type 0 where
    stored : Chain → EntryType → List (Entry H) → Call
    queried : Chain → EntryType → Query H → Call

  abbrev state_after :
      Option (Result (List (Entry H)) × LruStore dec hashes numbers)
      → LruStore dec hashes numbers
      → LruStore dec hashes numbers
  state_after none st = st
  state_after (some (r, st')) st = st'

  unfoldable pub run :
      (ℕ → Bool) → List Call → LruStore dec hashes numbers → LruStore dec hashes numbers
  run fits [] st = st
  run fits (stored chain typ es ∷ calls) st =
      run fits calls (put dec hashes numbers chain typ es st)
  run fits (queried chain typ q ∷ calls) st =
      run fits calls (state_after (get dec hashes numbers fits chain typ q st) st)

  get-IsSound :
      (fits : ℕ → Bool) (chain : Chain) (typ : EntryType) (q : Query H)
      (st : LruStore dec hashes numbers)
      → IsSound st
      → IsSound (state_after (get dec hashes numbers fits chain typ q st) st)
  unfolding get
  get-IsSound fits chain typ (hash x) st (n, h) =
      (n, λ k e p. h k e (sym (hashes.peek-get k _ st.by_hash) ∙ p))
  get-IsSound fits chain typ (range a b) st (n, h) =
      elim (Bool-cases (fits (sub_uint64 (suc b) a))) [
        | inl e ↦ rw e (scan-right chain typ (suc b - a) a st.by_number n, h)
        | inr e ↦ rw e (n, h)
      ]

  run-IsSound :
      (fits : ℕ → Bool) (calls : List Call) (st : LruStore dec hashes numbers)
      → IsSound st
      → IsSound (run fits calls st)
  unfolding run
  run-IsSound fits [] st h = h
  run-IsSound fits (stored chain typ es ∷ calls) st h =
      run-IsSound fits calls _ (put-IsSound chain typ es st h)
  run-IsSound fits (queried chain typ q ∷ calls) st h =
      run-IsSound fits calls _ (get-IsSound fits chain typ q st h)

  new-IsSound : IsSound (new_lru_store dec hashes numbers)
  unfolding new_lru_store
  new-IsSound = (
    λ k e p. absurd (ground (arith, numbers.peek-init k)),
    λ k e p. absurd (ground (arith, hashes.peek-init k)),
  )

  scan_ok :
      (r : Result (List (Entry H))) (es : List (Entry H)) (ns : List ℕ)
      → r ≡ ok es
      → Numbered r ns
      → map Entry.block_number es ≡ ns
  scan_ok r es ns e h = subst (λ (r : Result (List (Entry H))). Numbered r ns) e h

  -- After any calls on a new store, a range that is answered without an error is answered by one entry for each of
  -- its numbers, in ascending order.
  pub get-range :
      (fits : ℕ → Bool) (calls : List Call) (chain : Chain) (typ : EntryType) (a b : ℕ)
      (es : List (Entry H)) (after : LruStore dec hashes numbers)
      → get dec hashes numbers fits chain typ
          (range a b)
          (run fits calls (new_lru_store dec hashes numbers))
        ≡ some (ok es, after)
      → map Entry.block_number es ≡ from a (suc b - a)
  unfolding get
  get-range fits calls chain typ a b es after e =
      let st = run fits calls (new_lru_store dec hashes numbers) in
      let (n, h) = run-IsSound fits calls (new_lru_store dec hashes numbers) new-IsSound in
      scan_ok (scan dec hashes numbers chain typ (suc b - a) a st.by_number).0 es
        (from a (suc b - a)) (ground arith) (scan-Numbered chain typ (suc b - a) a st.by_number n)
