-- ===== src/Middlewares/Forger/Placed.antt =====
-- Where svc/node/middlewares/forger/forger.go puts the logs of a block.
use mathlib.Core.List.{Perm, perm_middle}
use mathlib.Core.List.Perm
use mathlib.Core.Logic.{ite, if_pos, if_neg}
use venn.Prelude.{
  ◌≡◌, ◌≢◌, refl, sym, ap, ◌∙◌, inl, inr, none, some, Option, List, [], ◌∷◌, ◌++◌, map, arith,
}
use venn.Rpc.{Json, Hexutil, Fields}
use venn.Ethtypes.Logs.Matching.{In}
use venn.Middlewares.Forger.{Log, Receipt, select, receipts, read_transaction, put_receipt}

module _ (hex : Hexutil) (dec : Discrete hex.Hash) where
  abbrev pub Distinct : List hex.Hash → Type 0
  Distinct [] = Unit
  Distinct (h ∷ hs) = ¬ In h hs × Distinct hs

  -- The transaction of every log is one of these.
  abbrev pub Belong : List (Log hex) → List hex.Hash → Type 0
  Belong [] hs = Unit
  Belong (log ∷ logs) hs = In (Log.hash log) hs × Belong logs hs

  reject : hex.Hash → List (Log hex) → List (Log hex)
  reject h [] = []
  reject h (log ∷ logs) = ite (dec (Log.hash log) h) (reject h logs) (log ∷ reject h logs)

  documents : List (Log hex) → List Json
  documents = map Log.document

  select-reject_perm :
      (h : hex.Hash) (logs : List (Log hex))
      → Perm (select hex dec h logs ++ documents (reject h logs)) (documents logs)
  unfolding select reject documents
  select-reject_perm h [] = Perm.refl []
  select-reject_perm h (log ∷ logs) = elim (dec (Log.hash log) h) [
    | yes e ↦ rw (if_pos _ e, if_pos _ e) (Perm.cons log.document (select-reject_perm h logs))
    | no n ↦
        rw (if_neg _ n, if_neg _ n)
          (Perm.trans (perm_middle (select hex dec h logs) (documents (reject h logs)))
            (Perm.cons log.document (select-reject_perm h logs)))
  ]

  In-ne : (x h : hex.Hash) (hs : List hex.Hash) → In x (h ∷ hs) → x ≢ h → In x hs
  In-ne x h hs i n = ground arith

  -- What is not put below the first transaction belongs to the others.
  reject-Belong :
      (h : hex.Hash) (hs : List hex.Hash) (logs : List (Log hex))
      → Belong logs (h ∷ hs)
      → Belong (reject h logs) hs
  unfolding reject
  reject-Belong h hs [] b = tt
  reject-Belong h hs (log ∷ logs) b = elim (dec (Log.hash log) h) [
    | yes e ↦ rw (if_pos _ e) (reject-Belong h hs logs b.1)
    | no n ↦ rw (if_neg _ n) (In-ne (Log.hash log) h hs b.0 n, reject-Belong h hs logs b.1)
  ]

  select-reject :
      (g h : hex.Hash) (logs : List (Log hex))
      → g ≢ h
      → select hex dec g (reject h logs) ≡ select hex dec g logs
  unfolding reject select
  select-reject g h [] n = refl
  select-reject g h (log ∷ logs) n = elim (dec (Log.hash log) h) [
    | yes e ↦ rw (if_pos _ e, select-reject g h logs n, if_neg _ (λ p. n (sym p ∙ e))) refl
    | no m ↦ rw (if_neg _ m, select-reject g h logs n) refl
  ]

  selected : List hex.Hash → List (Log hex) → List Json
  selected [] logs = []
  selected (h ∷ hs) logs = select hex dec h logs ++ selected hs logs

  selected-reject :
      (h : hex.Hash) (hs : List hex.Hash) (logs : List (Log hex))
      → ¬ In h hs
      → selected hs (reject h logs) ≡ selected hs logs
  unfolding selected
  selected-reject h [] logs n = refl
  selected-reject h (g ∷ hs) logs n =
      rw (select-reject g h logs (λ e. n (inl e)), selected-reject h hs logs (λ i. n (inr i))) refl

  selected-perm :
      (hs : List hex.Hash) (logs : List (Log hex))
      → Distinct hs
      → Belong logs hs
      → Perm (selected hs logs) (documents logs)
  unfolding selected documents
  selected-perm [] [] d b = Perm.refl []
  selected-perm [] (log ∷ logs) d b = absurd b.0
  selected-perm (h ∷ hs) logs d b =
      Perm.trans
        (Perm.append (Perm.refl (select hex dec h logs)) (
          rw (← selected-reject h hs logs d.0)
            (selected-perm hs (reject h logs) d.1 (reject-Belong h hs logs b))))
        (select-reject_perm h logs)

  -- The logs of the receipts, in their order.
  abbrev pub placed : List (Receipt hex) → List Json
  placed [] = []
  placed (r ∷ rs) = r.logs ++ placed rs

  some_inj : {x y : List (Receipt hex)} → some x ≡ some y → x ≡ y
  some_inj e = ground arith

  abbrev IsSelected : List (Log hex) → List (Receipt hex) → Type 0
  IsSelected logs rs = placed rs ≡ selected (map Receipt.hash rs) logs

  put_receipt-IsSelected :
      (logs : List (Log hex)) (tx : Option (Fields × hex.Hash)) (rest : Option (List (Receipt hex)))
      (rs : List (Receipt hex))
      → put_receipt hex dec logs tx rest ≡ some rs
      → ((rs' : List (Receipt hex)) → rest ≡ some rs' → IsSelected logs rs')
      → IsSelected logs rs
  unfolding selected
  put_receipt-IsSelected logs none rest rs e ih = cc
  put_receipt-IsSelected logs (some (fs, h)) none rs e ih = cc
  put_receipt-IsSelected logs (some (fs, h)) (some rs') rs e ih =
      rw (← some_inj e) (ap (◌++◌ (select hex dec h logs)) (ih rs' refl))

  receipts-IsSelected :
      (logs : List (Log hex)) (txs : List Json) (rs : List (Receipt hex))
      → receipts hex dec logs txs ≡ some rs
      → IsSelected logs rs
  unfolding receipts selected
  receipts-IsSelected logs [] rs e = rw (← some_inj e) refl
  receipts-IsSelected logs (tx ∷ txs) rs e =
      put_receipt-IsSelected logs (read_transaction hex tx) (receipts hex dec logs txs) rs e
        (receipts-IsSelected logs txs)

  -- Where the receipts are made, their transactions have distinct hashes, and every log belongs to
  -- one of these, the logs of all receipts are those of the block: each is put once.
  pub receipts-perm :
      (logs : List (Log hex)) (txs : List Json) (rs : List (Receipt hex))
      → receipts hex dec logs txs ≡ some rs
      → Distinct (map Receipt.hash rs)
      → Belong logs (map Receipt.hash rs)
      → Perm (placed rs) (map Log.document logs)
  unfolding documents
  receipts-perm logs txs rs e d b =
      rw (receipts-IsSelected logs txs rs e) (selected-perm (map Receipt.hash rs) logs d b)
