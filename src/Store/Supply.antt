-- ===== src/Store/Supply.antt =====
-- The pool as the server uses it: the next address, then Allocate.
use mydhcp.Common.{
  ℕ, ◌≤◌, ◌≡◌, List, some, none, arith, text_eq, nat_eq, Option-cases, inl, inr, count, ok,
}
use mydhcp.Common.Maps.{lookup}
use mydhcp.Lease.{offered, new_lease}
use mydhcp.Net.{Ip, ip_eq}
use mydhcp.Store.Defs.{Store, circulating}
use mydhcp.Store.Ops.{next_available, get, allocate, offer}
use mydhcp.Store.Pool.{count-first, leased-some}
use mydhcp.Store.Lifecycle.{allocate_answer_lem, get-allocate}
use mydhcp.Store.Invariant.Steps.{next_available-IsValid}
use mydhcp.Store.Invariant.{IsValid}

-- No lease has an address that stands in the pool.
pub pooled-get : (s : Store) (ip : Ip) → IsValid s → 1 ≤ count ip s.available → get s ip ≡ none
unfolding get
pooled-get s ip v h = elim (Option-cases (lookup ip s.by_ip)) [
  | inl e ↦ ground (arith, e)
  | inr (r, e) ↦
      unfold circulating in absurd (omega (arith, v.exclusive ip, leased-some ip r s.by_ip e))
]

-- An address that NextAvailable hands out of a well-formed store has no lease, and Allocate of it
-- then gives any client a new open offer, which the store holds.
pub next_available_lem :
    (s : Store) (c : List ℕ) (ip : Ip) (now : ℕ)
    → IsValid s
    → (next_available s).1 ≡ some ip
    → (get s ip ≡ none)
      × ((allocate (next_available s).0 c ip now).1 ≡ ok (offer s (new_lease ip c offered) now))
      × (get (allocate (next_available s).0 c ip now).0 ip
          ≡ some (offer s (new_lease ip c offered) now))
next_available_lem s c ip now v h =
    let s' = (next_available s).0 in
    let v' : IsValid s' = next_available-IsValid s v in
    let unleased : get s ip ≡ none =
      unfold next_available in pooled-get s ip v (count-first ip s.available h) in
    let unleased' : get s' ip ≡ none = unfold get next_available in unleased in
    let granted : (allocate s' c ip now).1 ≡ ok (offer s (new_lease ip c offered) now) =
      unfold offer next_available in
      ground (arith, unleased', allocate_answer_lem s' c ip now v') in
    (unleased, granted, get-allocate s' c ip now (offer s (new_lease ip c offered) now) v' granted)
