-- ===== src/Store/Isolation.antt =====
-- A client's calls leave the leases of the other clients alone.
use mydhcp.Common.{
  ℕ, ◌+◌, ◌≡◌, refl, List, some, ◌=?◌, arith, text_eq, nat_eq, Option-cases, inl, inr, ◌≢◌,
}
use mydhcp.Common.Maps.{lookup}
use mydhcp.Lease.{Lease, State, reserved, offered, bound, declined}
use mydhcp.Net.{Ip, ip_eq}
use mydhcp.Store.Defs.{Store, write}
use mydhcp.Store.Ops.{
  reserve, offer, claim, allocate_held, allocate, renew_held, renew, release, decline, get,
  get_by_client,
}
use mydhcp.Store.Invariant.{IsValid, rewrite-IsValid}
use mydhcp.Store.View.{get-allocate_new, get-write, get-give_back, get-reserve_new}

claim-keeps :
    (s : Store) (c : List ℕ) (k : Ip) (r : ℕ) (l : Lease)
    → IsValid s
    → get s k ≡ some l
    → l.client_id ≢ c
    → get (claim s c r) k ≡ some l
unfolding get claim write
claim-keeps s c k r l v held foreign = elim (Option-cases (lookup c s.by_client)) [
  | inl e ↦ ground (arith, e)
  | inr (q, e) ↦ ground (arith, e, v.owned c q e)
]

module _ (s : Store) (c : List ℕ) (ip k : Ip) (l : Lease) (v : IsValid s) (held : get s k ≡ some l)
    (foreign : l.client_id ≢ c) (apart : ip ≢ k) where
  write-keeps :
      (r : ℕ) (new : Lease)
      → lookup ip s.by_ip ≡ some r
      → get (record s { heap = write s.heap r new }) k ≡ some l
  write-keeps r new found = ground (arith, get-write s ip k r new v found)

  allocate_held-keeps :
      (st : State) (r now : ℕ)
      → lookup ip s.by_ip ≡ some r
      → get (allocate_held st s c r now).0 k ≡ some l
  unfolding allocate_held offer
  allocate_held-keeps reserved r now found = elim ((s.heap r).client_id =? c) [
    | yes mine ↦ ground (
      arith,
      mine,
      claim-keeps (record s { heap = write s.heap r (offer s (s.heap r) now) }) c k r l
          (rewrite-IsValid s r (offer s (s.heap r) now) refl refl v)
          (write-keeps r (offer s (s.heap r) now) found) foreign,
    )
    | no other ↦ ground (arith, other)
  ]
  allocate_held-keeps offered r now found = ground (
    arith,
    write-keeps r (record (s.heap r) { offered_at = now; expires_at = now + s.offer_ttl }) found,
  )
  allocate_held-keeps st r now found = held

  allocate-keeps : (now : ℕ) → get (allocate s c ip now).0 k ≡ some l
  unfolding allocate get_by_client
  allocate-keeps now = elim (Option-cases (lookup ip s.by_ip)) [
    | inl e ↦ elim (Option-cases (lookup c s.by_client)) [
      | inl f ↦ ground (arith, e, f, get-allocate_new s c ip k now e v)
      | inr (q, f) ↦
          unfold get in ground (arith, e, f, get-allocate_new s c ip k now e v, v.owned c q f)
    ]
    | inr (r, e) ↦ ground (arith, e, allocate_held-keeps (s.heap r).state r now e)
  ]

  renew_held-keeps :
      (st : State) (r now : ℕ)
      → lookup ip s.by_ip ≡ some r
      → get (renew_held st s r now).0 k ≡ some l
  unfolding renew_held
  renew_held-keeps offered r now found = write-keeps r _ found
  renew_held-keeps bound r now found = write-keeps r _ found
  renew_held-keeps st r now found = held

  renew-keeps : (now : ℕ) → get (renew s c ip now).0 k ≡ some l
  unfolding renew
  renew-keeps now = elim (Option-cases (lookup ip s.by_ip)) [
    | inl e ↦ ground (arith, e)
    | inr (r, e) ↦ ground (arith, e, renew_held-keeps (s.heap r).state r now e)
  ]

  release-keeps : get (release s c ip).0 k ≡ some l
  unfolding release
  release-keeps = elim (Option-cases (lookup ip s.by_ip)) [
    | inl e ↦ ground (arith, e)
    | inr (r, e) ↦ ground (arith, e, get-give_back s ip k r)
  ]

  reserve-keeps : get (reserve s c ip).0 k ≡ some l
  unfolding reserve
  reserve-keeps = ground (arith, get-reserve_new s c ip k v)

  decline-keeps : (now : ℕ) → get (decline s ip now).0 k ≡ some l
  unfolding decline
  decline-keeps now = elim (Option-cases (lookup ip s.by_ip)) [
    | inl e ↦ ground (arith, e)
    | inr (r, e) ↦
        ground
          (arith, e, write-keeps r (record (s.heap r) { state = declined; declined_at = now }) e)
  ]

  -- In a well-formed store, whatever client `c` does on the address `ip` by Allocate, Renew,
  -- Release or Reserve, or anyone by Decline, the lease of another client at another address stays
  -- as it is.
  pub isolation :
      (now : ℕ)
      → (get (allocate s c ip now).0 k ≡ some l)
        × (get (renew s c ip now).0 k ≡ some l)
        × (get (release s c ip).0 k ≡ some l)
        × (get (reserve s c ip).0 k ≡ some l)
        × (get (decline s ip now).0 k ≡ some l)
  isolation now =
      (allocate-keeps now, renew-keeps now, release-keeps, reserve-keeps, decline-keeps now)
