-- ===== src/Callcenter/HybridProxy/Pool.antt =====
-- The order in which the pool of lib/callcenter/hybridproxy.go hands out its connections.
use venn.Prelude.{
  ℕ, zero, suc, ◌≤◌, ◌≡◌, refl, ap, ◌∙◌, Bool, Option, none, some, List, [], ◌∷◌, arith, leb, ◌==◌,
  if◌then◌else◌, Bool-cases, inl, inr,
}
use venn.Rpc.{Result, ok, err}
use venn.Callcenter.HybridProxy.{
  SocketPool, SocketPoolConn, new_socket_pool, find, store, wrap, on_dial, on_slot, get,
}

-- 0, 1 and so on up to size - 1 and then from 0 again, from n on
abbrev pub cycle : ℕ → ℕ → ℕ → List ℕ
cycle size n zero = []
cycle size n (suc k) = n ∷ cycle size (if leb size (suc n) then 0 else suc n) k

cycle-cong : {z n z' n' : ℕ} (k : ℕ) → z ≡ z' → n ≡ n' → cycle z n k ≡ cycle z' n' k
cycle-cong k p q i = cycle (p i) (q i) k

module _ {Cn S : Type 0} (is_closed : Cn → S → Bool) (dialer : S → Result Cn × S) where
  -- The ids of the connections that calls of `get` return, each call in the state that the program has
  -- reached by then, in which any connection may have been closed.
  abbrev pub cons_id : Result (SocketPoolConn Cn) → List ℕ → List ℕ
  cons_id (err e) ids = ids
  cons_id (ok c) ids = c.id ∷ ids

  abbrev pub gets : SocketPool Cn → List S → List ℕ
  gets p [] = []
  gets p (s ∷ ss) = let (c, (p', s')) = get is_closed dialer p s in cons_id c (gets p' ss)

  -- The id that is next, after the wrap.
  abbrev pub slot : SocketPool Cn → ℕ
  slot p = (wrap p).next_id

  abbrev Stepped : SocketPool Cn → Result (SocketPoolConn Cn) × (SocketPool Cn × S) → Type 0
  Stepped p (err e, (p', s')) = (p'.size ≡ p.size) × (slot p' ≡ slot p)
  Stepped p (ok c, (p', s')) =
      (p'.size ≡ p.size)
      × ((slot p' ≡ (if leb p.size (suc (slot p)) then 0 else suc (slot p)))
          × ((c.id ≡ slot p) × (find (slot p) p'.pool ≡ some c)))

  find-Id :
      (id : ℕ) (pool : List (SocketPoolConn Cn)) (c : SocketPoolConn Cn)
      → find id pool ≡ some c
      → c.id ≡ id
  unfolding find
  find-Id id [] c e = absurd (ground arith)
  find-Id id (d ∷ pool) c e = elim (Bool-cases (d.id == id)) [
    | inl k ↦ let same : some d ≡ some c = rw k at e in ground arith
    | inr k ↦ find-Id id pool c (rw k at e)
  ]

  find-store :
      (c : SocketPoolConn Cn) (pool : List (SocketPoolConn Cn)) → find c.id (store c pool) ≡ some c
  unfolding find store
  find-store c [] = ground arith
  find-store c (d ∷ pool) = let rec = find-store c pool in ground arith

  slot-wrap : (p : SocketPool Cn) → slot (wrap p) ≡ slot p
  slot-wrap p = ground arith

  on_dial-Stepped : (p : SocketPool Cn) (r : Result Cn × S) → Stepped p (on_dial (wrap p) r)
  on_dial-Stepped p (err e, s) = (ground arith, ground arith)
  on_dial-Stepped p (ok conn, s) = (
    ground arith,
    (ground arith, (ground arith, find-store (record { id = slot p; conn = conn }) (wrap p).pool)),
  )

  on_slot-Stepped :
      (p : SocketPool Cn) (s : S) (found : Option (SocketPoolConn Cn))
      → find (slot p) (wrap p).pool ≡ found
      → Stepped p (on_slot is_closed dialer found (wrap p) s)
  on_slot-Stepped p s none e = on_dial-Stepped p (dialer s)
  on_slot-Stepped p s (some c) e = elim (Bool-cases (is_closed c.conn s)) [
    | inl k ↦ rw k (on_dial-Stepped p (dialer s))
    | inr k ↦ rw k (ground arith, (ground arith, (find-Id (slot p) (wrap p).pool c e, e)))
  ]

  get-Stepped : (p : SocketPool Cn) (s : S) → Stepped p (get is_closed dialer p s)
  unfolding get
  get-Stepped p s = on_slot-Stepped p s (find (slot p) (wrap p).pool) refl

  -- How many calls return a connection.
  abbrev pub got : Result (SocketPoolConn Cn) → ℕ → ℕ
  got (err e) n = n
  got (ok c) n = suc n

  abbrev pub gots : SocketPool Cn → List S → ℕ
  gots p [] = 0
  gots p (s ∷ ss) = let (c, (p', s')) = get is_closed dialer p s in got c (gots p' ss)

  gets-step :
      (p : SocketPool Cn) (ss : List S) (r : Result (SocketPoolConn Cn) × (SocketPool Cn × S))
      → Stepped p r
      → gets (r.1.0) ss ≡ cycle (r.1.0).size (slot (r.1.0)) (gots (r.1.0) ss)
      → cons_id (r.0) (gets (r.1.0) ss) ≡ cycle p.size (slot p) (got (r.0) (gots (r.1.0) ss))
  gets-step p ss (err e, (p', s')) (z, n) h = h ∙ cycle-cong _ z n
  gets-step p ss (ok c, (p', s')) (z, (n, (i, f))) h =
      ap (λ j. j ∷ gets p' ss) i ∙ ap (λ l. slot p ∷ l) (h ∙ cycle-cong _ z n)

  gets-slot : (p : SocketPool Cn) (ss : List S) → gets p ss ≡ cycle p.size (slot p) (gots p ss)
  gets-slot p [] = refl
  gets-slot p (s ∷ ss) =
      let r = get is_closed dialer p s in gets-step p ss r (get-Stepped p s) (gets-slot (r.1.0) ss)

  -- The connections that a new pool returns go around its ids in order, 0 to size - 1 and then
  -- from 0 again, whichever connections are closed in between and whichever dials fail: a failed call
  -- does not move on.
  pub gets-cycle :
      (size : ℕ) (ss : List S)
      → 1 ≤ size
      → gets (new_socket_pool size) ss ≡ cycle size 0 (gots (new_socket_pool size) ss)
  unfolding new_socket_pool
  gets-cycle size ss h =
      gets-slot (new_socket_pool size) ss
      ∙ ap (λ n. cycle size n (gots (new_socket_pool size) ss)) (ground arith)
