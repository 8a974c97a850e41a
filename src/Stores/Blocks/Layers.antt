-- ===== src/Stores/Blocks/Layers.antt =====
-- Which store answers in lib/stores/blockstore/compound.go, and which ones get the entries.
use mathlib.Core.List.{append_assoc, append-nil}
use venn.Prelude.{
  ◌≡◌, sym, ap, ◌∙◌, false, Option, none, some, List, [], ◌∷◌, ◌++◌, arith, inl, inr,
}
use venn.Rpc.{Error, Chain, Result, ok, err, Result-cases}
use venn.Stores.Blocks.{
  EntryType, Entry, Query, BlockStore, is_empty_query, or_not_found, answer, put_each, search, get,
}

module _ {H S : Type 0} (append : Option Error → Error → Error) (chain : Chain) (typ : EntryType)
    (query : Query H) where
  abbrev after_failure : Result (List (Entry H)) → Option S → Option S
  after_failure (err e) next = next
  after_failure (ok entries) next = none

  -- The state after a failed `Get` of every store, or none if one of them answers.
  unfoldable pub all_fail : List (BlockStore H S) → S → Option S
  all_fail [] s = some s
  all_fail (store ∷ stores) s =
      let (r, s') = store.get chain typ query s in after_failure r (all_fail stores s')

  some_inj : {x y : S} → some x ≡ some y → x ≡ y
  some_inj e = ground arith

  none_ne : (x : S) → none ≡ some x → ⊥
  none_ne x e = ground arith

  search-skips :
      (passed earlier rest : List (BlockStore H S)) (merr : Option Error) (s s' : S)
      → all_fail earlier s ≡ some s'
      → (merr' : Option Error) × (search append chain typ query passed (earlier ++ rest) merr s
          ≡ search append chain typ query (passed ++ earlier) rest merr' s')
  unfolding all_fail search
  search-skips passed [] rest merr s s' h = (
    merr,
    ap (λ (t : S). search append chain typ query passed rest merr t) (some_inj h)
        ∙ ap (λ (l : List (BlockStore H S)). search append chain typ query l rest merr s')
            (sym (append-nil passed)),
  )
  search-skips passed (store ∷ earlier) rest merr s s' h =
      elim (Result-cases (store.get chain typ query s).0) [
        | inl (e, bad) ↦
            let next = (store.get chain typ query s).1 in
            let (merr', eq) =
              search-skips (passed ++ (store ∷ [])) earlier rest (some (append merr e)) next s'
                (rw (bad, all_fail) at h) in
            (
              merr',
              rw (bad, search)
                  (eq
                    ∙ ap
                        (λ (l : List (BlockStore H S)).
                          search append chain typ query l rest merr' s')
                        (append_assoc passed (store ∷ []) earlier)),
            )
        | inr (entries, good) ↦ absurd (none_ne s' (rw (good, all_fail) at h))
      ]

  -- Where the query is not an empty range, the stores before one fail and that one answers, `Get` puts the entries into each
  -- of the stores before it, in order, and then answers them, or the errors of those stores. The stores behind it
  -- are not called.
  pub get-fills :
      (earlier later : List (BlockStore H S)) (store : BlockStore H S) (entries : List (Entry H))
      (s s' s'' : S)
      → is_empty_query query ≡ false
      → all_fail earlier s ≡ some s'
      → store.get chain typ query s' ≡ (ok entries, s'')
      → get append chain typ (earlier ++ (store ∷ later)) query s
        ≡ answer entries (put_each append chain typ earlier entries none s'')
  unfolding get search
  get-fills earlier later store entries s s' s'' q f g =
      let (merr, eq) = search-skips [] earlier (store ∷ later) none s s' f in
      rw (q, get)
        (eq
          ∙ rw (ap (λ (p : Result (List (Entry H)) × S). p.0) g, search)
              (ap
                (λ (p : Result (List (Entry H)) × S).
                  answer entries (put_each append chain typ earlier entries none p.1))
                g))

  -- Where the query is not an empty range and every store fails, so does `Get`.
  pub get-fails :
      (stores : List (BlockStore H S)) (s s' : S)
      → is_empty_query query ≡ false
      → all_fail stores s ≡ some s'
      → (e : Error) × (get append chain typ stores query s ≡ (err e, s'))
  unfolding get search
  get-fails stores s s' q f =
      let (merr, eq) = search-skips [] stores [] none s s' f in
      (
        or_not_found merr,
        rw (q, get)
            (ap (λ (l : List (BlockStore H S)). search append chain typ query [] l none s)
                (sym (append-nil stores))
              ∙ eq),
      )
