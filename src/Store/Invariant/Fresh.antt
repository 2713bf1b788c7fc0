-- ===== src/Store/Invariant/Fresh.antt =====
-- Allocate on an address that no lease has keeps the store well-formed.
use mydhcp.Common.{
  ℕ, ◌≤◌, ◌<◌, ◌≡◌, List, some, none, ite, arith, text_eq, nat_eq, Option-cases, inl, inr, ◌=?◌,
}
use mydhcp.Common.Maps.{lookup, insert, lookup-insert, lookup-delete}
use mydhcp.Net.{Ip, ip_eq}
use mydhcp.Store.Defs.{Store, leased, circulating}
use mydhcp.Store.Ops.{allocate_new}
use mydhcp.Store.Pool.{count-remove_ip, leased-none}
use mydhcp.Store.Invariant.{IsValid}

-- The client's old lease, if it has one, stands in the address map below the next free pointer.
pub old_lease :
    (s : Store) (c : List ℕ) {q : ℕ}
    → IsValid s
    → lookup c s.by_client ≡ some q
    → (lookup (s.heap q).ip s.by_ip ≡ some q) × (q < s.fresh)
old_lease s c {q} v h = let found = (v.owned c q h).1 in (found, (v.keyed (s.heap q).ip q found).1)

-- The entries by address after a new allocation: the new one, and the others without the client's
-- old one.
pub lookup-allocate_new :
    (s : Store) (c : List ℕ) (ip k : Ip) (now : ℕ)
    → IsValid s
    → lookup k (allocate_new s c ip now).by_ip ≡ elim (lookup c s.by_client) [
      | none ↦ ite (ip =? k) (some s.fresh) (lookup k s.by_ip)
      | some q ↦ ite ((s.heap q).ip =? k) none (ite (ip =? k) (some s.fresh) (lookup k s.by_ip))
    ]
unfolding allocate_new
lookup-allocate_new s c ip k now v = elim (Option-cases (lookup c s.by_client)) [
  | inl e ↦ ground (arith, e, lookup-insert ip k s.fresh s.by_ip)
  | inr (q, e) ↦ ground (
    arith,
    e,
    lookup-insert ip k s.fresh s.by_ip,
    lookup-delete (s.heap q).ip k (insert ip s.fresh s.by_ip),
    old_lease s c v e,
  )
]

leased-allocate_new-le :
    (s : Store) (c : List ℕ) (ip k : Ip) (now : ℕ)
    → IsValid s
    → leased k (allocate_new s c ip now).by_ip ≤ ite (ip =? k) 1 (leased k s.by_ip)
unfolding leased
leased-allocate_new-le s c ip k now v = ground (arith, lookup-allocate_new s c ip k now v)

allocate_new-keyed :
    (s : Store) (c : List ℕ) (ip : Ip) (now : ℕ)
    → IsValid s
    → (k : Ip) (r : ℕ) → lookup k (allocate_new s c ip now).by_ip ≡ some r
    → (((allocate_new s c ip now).heap r).ip ≡ k) × (r < (allocate_new s c ip now).fresh)
unfolding allocate_new
allocate_new-keyed s c ip now v k r h =
    ground (arith, h, lookup-allocate_new s c ip k now v, v.keyed k r)

allocate_new-owned :
    (s : Store) (c : List ℕ) (ip : Ip) (now : ℕ)
    → lookup ip s.by_ip ≡ none
    → IsValid s
    → (c' : List ℕ) (r : ℕ) → lookup c' (allocate_new s c ip now).by_client ≡ some r
    → (((allocate_new s c ip now).heap r).client_id ≡ c')
      × (lookup ((allocate_new s c ip now).heap r).ip (allocate_new s c ip now).by_ip ≡ some r)
unfolding allocate_new
allocate_new-owned s c ip now free v c' r h = elim (Option-cases (lookup c s.by_client)) [
  | inl e ↦ ground (
    arith,
    e,
    lookup-insert c c' s.fresh s.by_client,
    lookup-allocate_new s c ip ip now v,
    lookup-allocate_new s c ip (s.heap r).ip now v,
    v.owned c' r,
    v.keyed (s.heap r).ip r,
  )
  | inr (q, e) ↦ ground (
    arith,
    e,
    lookup-insert c c' s.fresh s.by_client,
    lookup-allocate_new s c ip ip now v,
    lookup-allocate_new s c ip (s.heap r).ip now v,
    v.owned c' r,
    v.owned c q e,
    v.keyed (s.heap r).ip r,
  )
]

pub allocate_new-IsValid :
    (s : Store) (c : List ℕ) (ip : Ip) (now : ℕ)
    → lookup ip s.by_ip ≡ none
    → IsValid s
    → IsValid (allocate_new s c ip now)
unfolding circulating
allocate_new-IsValid s c ip now free v = record {
  keyed = allocate_new-keyed s c ip now v;
  owned = allocate_new-owned s c ip now free v;
  exclusive = λ k.
      unfold allocate_new in
      ground (
        arith,
        count-remove_ip k ip s.available,
        leased-allocate_new-le s c ip k now v,
        leased-none ip s.by_ip free,
        v.exclusive k,
      );
}
