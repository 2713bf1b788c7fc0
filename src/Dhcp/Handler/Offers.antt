-- ===== src/Dhcp/Handler/Offers.antt =====
-- The lease that a DISCOVER finds.
use mydhcp.Common.{
  ℕ, ◌+◌, ◌≡◌, refl, List, Option, some, none, arith, text_eq, Option-cases, inl, inr, ok, ap, ◌∙◌,
  subst, sym,
}
use mydhcp.Lease.{Lease, offered, new_lease}
use mydhcp.Net.{Ip, ip_eq}
use mydhcp.Store.Defs.{Store}
use mydhcp.Store.Ops.{allocate, get, next_available, first, offer}
use mydhcp.Store.Lifecycle.{get-allocate, allocate_ok}
use mydhcp.Store.Supply.{next_available_lem}
use mydhcp.Store.Invariant.Steps.{allocate-IsValid, next_available-IsValid}
use mydhcp.Store.Invariant.{IsValid}
use mydhcp.Dhcp.Handler.{lease_of, try_preferred, try_pool, find_lease}

try_preferred-IsValid :
    (s : Store) (c : List ℕ) (preferred : Option Ip) (now : ℕ)
    → IsValid s
    → IsValid (try_preferred s c preferred now).0
unfolding try_preferred
try_preferred-IsValid s c none now v = v
try_preferred-IsValid s c (some ip) now v = allocate-IsValid s c ip now v

try_pool-IsValid : (s : Store) (c : List ℕ) (now : ℕ) → IsValid s → IsValid (try_pool s c now).0
unfolding try_pool
try_pool-IsValid s c now v = elim (Option-cases (next_available s).1) [
  | inl e ↦ ground (arith, e, next_available-IsValid s v)
  | inr (ip, e) ↦
      ground (arith, e, allocate-IsValid (next_available s).0 c ip now (next_available-IsValid s v))
]

pub find_lease-IsValid :
    (s : Store) (c : List ℕ) (preferred : Option Ip) (now : ℕ)
    → IsValid s
    → IsValid (find_lease s c preferred now).0
unfolding find_lease
find_lease-IsValid s c preferred now v =
    let v' = try_preferred-IsValid s c preferred now v in
    elim (Option-cases (try_preferred s c preferred now).1) [
      | inl e ↦ ground (arith, e, try_pool-IsValid (try_preferred s c preferred now).0 c now v')
      | inr (l, e) ↦ ground (arith, e, v')
    ]

-- The lease is the client's own offer, and the store holds it under its address.
pub record IsOffer (s : Store) (c : List ℕ) (expires : ℕ) (l : Lease) : Type 0 where
  pub held : get s l.ip ≡ some l
  pub mine : l.client_id ≡ c
  pub open_offer : l.state ≡ offered
  pub until : l.expires_at ≡ expires

allocate-IsOffer :
    (s : Store) (c : List ℕ) (ip : Ip) (now : ℕ) (l : Lease)
    → IsValid s
    → (allocate s c ip now).1 ≡ ok l
    → IsOffer (allocate s c ip now).0 c (now + s.offer_ttl) l
allocate-IsOffer s c ip now l v h =
    let facts = allocate_ok s c ip now l v h in
    record {
      held = ap (get (allocate s c ip now).0) facts.0 ∙ get-allocate s c ip now l v h;
      mine = facts.1;
      open_offer = facts.2;
      until = facts.3;
    }

allocate_refused :
    (s : Store) (c : List ℕ) (ip : Ip) (now : ℕ)
    → lease_of (allocate s c ip now).1 ≡ none
    → (allocate s c ip now).0 ≡ s
unfolding lease_of allocate
allocate_refused s c ip now h = ground arith

try_preferred_refused :
    (s : Store) (c : List ℕ) (preferred : Option Ip) (now : ℕ)
    → (try_preferred s c preferred now).1 ≡ none
    → (try_preferred s c preferred now).0 ≡ s
unfolding try_preferred
try_preferred_refused s c none now h = refl
try_preferred_refused s c (some ip) now h = allocate_refused s c ip now h

lease_of-some :
    (s : Store) (c : List ℕ) (ip : Ip) (now : ℕ) (l : Lease)
    → lease_of (allocate s c ip now).1 ≡ some l
    → (allocate s c ip now).1 ≡ ok l
unfolding lease_of
lease_of-some s c ip now l h = ground arith

try_preferred-IsOffer :
    (s : Store) (c : List ℕ) (preferred : Option Ip) (now : ℕ) (l : Lease)
    → IsValid s
    → (try_preferred s c preferred now).1 ≡ some l
    → IsOffer (try_preferred s c preferred now).0 c (now + s.offer_ttl) l
unfolding try_preferred
try_preferred-IsOffer s c none now l v h = absurd (ground arith)
try_preferred-IsOffer s c (some ip) now l v h =
    allocate-IsOffer s c ip now l v (lease_of-some s c ip now l h)

pub lease_of_ok :
    (s : Store) (c : List ℕ) (ip : Ip) (now : ℕ) (l : Lease)
    → (allocate s c ip now).1 ≡ ok l
    → lease_of (allocate s c ip now).1 ≡ some l
unfolding lease_of
lease_of_ok s c ip now l h = ground arith

-- The address that the pool gave, and what Allocate of it left.
pub try_pool-some :
    (s : Store) (c : List ℕ) (ip : Ip) (now : ℕ)
    → (next_available s).1 ≡ some ip
    → (let r = allocate (next_available s).0 c ip now in try_pool s c now ≡ (r.0, lease_of r.1))
unfolding try_pool
try_pool-some s c ip now h = ground arith

try_pool-none :
    (s : Store) (c : List ℕ) (now : ℕ) → (next_available s).1 ≡ none → (try_pool s c now).1 ≡ none
unfolding try_pool
try_pool-none s c now h = ground arith

try_pool-IsOffer :
    (s : Store) (c : List ℕ) (now : ℕ) (l : Lease)
    → IsValid s
    → (try_pool s c now).1 ≡ some l
    → IsOffer (try_pool s c now).0 c (now + s.offer_ttl) l
try_pool-IsOffer s c now l v h = elim (Option-cases (next_available s).1) [
  | inl e ↦ absurd (cc (try_pool-none s c now e))
  | inr (ip, e) ↦
      let same : (next_available s).0.offer_ttl ≡ s.offer_ttl = unfold next_available in refl in
      let granted = try_pool-some s c ip now e in
      rw granted (
        subst (λ t. IsOffer (allocate (next_available s).0 c ip now).0 c (now + t) l) same
          (allocate-IsOffer (next_available s).0 c ip now l (next_available-IsValid s v)
            (lease_of-some (next_available s).0 c ip now l (cc (granted)))))
]

-- A refused address leaves the choice to the pool, on the store as it was.
pub find_lease_pool :
    (s : Store) (c : List ℕ) (preferred : Option Ip) (now : ℕ)
    → (try_preferred s c preferred now).1 ≡ none
    → find_lease s c preferred now ≡ try_pool s c now
unfolding find_lease
find_lease_pool s c preferred now h = ground (arith, h, try_preferred_refused s c preferred now h)

pub find_lease_preferred :
    (s : Store) (c : List ℕ) (preferred : Option Ip) (now : ℕ) (l : Lease)
    → (try_preferred s c preferred now).1 ≡ some l
    → find_lease s c preferred now ≡ ((try_preferred s c preferred now).0, some l)
unfolding find_lease
find_lease_preferred s c preferred now l h = ground (arith, h)

pub find_lease-IsOffer :
    (s : Store) (c : List ℕ) (preferred : Option Ip) (now : ℕ) (l : Lease)
    → IsValid s
    → (find_lease s c preferred now).1 ≡ some l
    → IsOffer (find_lease s c preferred now).0 c (now + s.offer_ttl) l
find_lease-IsOffer s c preferred now l v h =
    elim (Option-cases (try_preferred s c preferred now).1) [
      | inl e ↦
          let same = find_lease_pool s c preferred now e in
          rw same
            (try_pool-IsOffer s c now l v (ap (λ (r : Store × Option Lease). r.1) (sym same) ∙ h))
      | inr (l', e) ↦
          let same = find_lease_preferred s c preferred now l' e in
          rw same (
            try_preferred-IsOffer s c preferred now l v
              (e ∙ ap (λ (r : Store × Option Lease). r.1) (sym same) ∙ h))
    ]

-- While the pool has an address, a client finds a lease.
pub find_lease_total :
    (s : Store) (c : List ℕ) (preferred : Option Ip) (ip : Ip) (now : ℕ)
    → IsValid s
    → first s.available ≡ some ip
    → (l : Lease) × ((find_lease s c preferred now).1 ≡ some l)
find_lease_total s c preferred ip now v h =
    elim (Option-cases (try_preferred s c preferred now).1) [
      | inl e ↦
          let next : (next_available s).1 ≡ some ip = unfold next_available in h in
          let l = offer s (new_lease ip c offered) now in
          let granted = (next_available_lem s c ip now v next).1 in
          (
            l,
            ap (λ (r : Store × Option Lease). r.1)
                  (find_lease_pool s c preferred now e ∙ try_pool-some s c ip now next)
                ∙ lease_of_ok (next_available s).0 c ip now l granted,
          )
      | inr (l, e) ↦
          (l, ap (λ (r : Store × Option Lease). r.1) (find_lease_preferred s c preferred now l e))
    ]
