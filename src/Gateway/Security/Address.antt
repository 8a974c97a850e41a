-- ===== src/Gateway/Security/Address.antt =====
-- Under which address svc/app/gateway/api.go sees a request.
use venn.Prelude.{
  ◌≡◌, ◌⊎◌, inl, inr, refl, String, Bool, true, not, Option, List, [], ◌∷◌, str_eq, ◌&&◌, arith,
  Bool-cases,
}
use mathlib.Core.List.{Mem, mem-cons_of_mem, mem-cons_self}
use venn.Gateway.Security.{Security, HttpRequest, forwarded, is_trusted, client_addr}

module _ {A : Type 0} (split_host_port : String → Option String) (parse_addr : String → Option A)
    (trusted : A → Bool) (is_ip : String → Bool) (match : String → String → Option Bool) where
  abbrev seen : List String → HttpRequest → String
  seen = forwarded split_host_port parse_addr trusted is_ip match

  -- The address stands in one of the headers.
  abbrev Given : HttpRequest → List String → String → Type 0
  Given r headers addr = (is_ip addr ≡ true) × ((h : String) × Mem h headers × (r.header h ≡ addr))

  listed_later :
      (r : HttpRequest) (h : String) (headers : List String) (addr : String)
      → Given r headers addr
      → Given r (h ∷ headers) addr
  listed_later r h headers addr (e, (k, m, e')) = (e, (k, mem-cons_of_mem h m, e'))

  and_right : (a b : Bool) → (a && b) ≡ true → b ≡ true
  and_right a b h = ground arith

  forwarded-cases :
      (headers : List String) (r : HttpRequest)
      → (seen headers r ≡ r.remote_addr) ⊎ Given r headers (seen headers r)
  unfolding forwarded
  forwarded-cases [] r = inl refl
  forwarded-cases (h ∷ headers) r =
      elim (Bool-cases (not (str_eq (r.header h) "") && is_ip (r.header h))) [
        | inl e ↦ inr (rw e (and_right _ (is_ip (r.header h)) e, (h, mem-cons_self, refl)))
        | inr e ↦ rw e (elim (forwarded-cases headers r) [
          | inl e' ↦ inl e'
          | inr g ↦ inr (listed_later r h headers (seen headers r) g)
        ])
      ]

  -- A request that is not from a trusted address is seen under the address that it has. One from a trusted
  -- address is seen under the address that it has or one that is the value of a listed header.
  pub client_addr-cases :
      (s : Security) (r : HttpRequest)
      → let addr = client_addr split_host_port parse_addr trusted is_ip match s r in
        (addr ≡ r.remote_addr)
        ⊎ ((is_trusted split_host_port parse_addr trusted is_ip match r ≡ true)
            × ((is_ip addr ≡ true)
                × ((h : String) × Mem h s.trusted_ip_headers × (r.header h ≡ addr))))
  unfolding client_addr
  client_addr-cases s r =
      elim (Bool-cases (is_trusted split_host_port parse_addr trusted is_ip match r)) [
        | inl e ↦ rw e (elim (forwarded-cases s.trusted_ip_headers r) [
          | inl e' ↦ inl e'
          | inr g ↦ inr (refl, g)
        ])
        | inr e ↦ rw e (inl refl)
      ]
