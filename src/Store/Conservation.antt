-- ===== src/Store/Conservation.antt =====
-- Which addresses stay in circulation: in the pool, or under a lease.
use mydhcp.Common.{
  ℕ, ◌≡◌, refl, List, [], ◌∷◌, some, none, arith, text_eq, nat_eq, Option-cases, inl, inr, ◌∙◌,
  count-append, count-one, Bool,
}
use mydhcp.Common.Maps.{lookup, keys}
use mydhcp.Lease.{Lease}
use mydhcp.Net.{Ip, ip_eq}
use mydhcp.Store.Defs.{Store, circulating, leased}
use mydhcp.Store.Ops.{
  allocate_new, allocate, renew_held, renew, release, decline, get, get_by_client, unreserve,
  give_back, next_available,
}
use mydhcp.Store.Sweep.{visit, sweep, expire, cool_down, is_expired, is_cooled}
use mydhcp.Store.Pool.{count-remove_ip, count-rotate, leased-delete, leased-some}
use mydhcp.Store.Invariant.Fresh.{lookup-allocate_new}
use mydhcp.Store.Invariant.Steps.{visit-IsValid}
use mydhcp.Store.Invariant.{IsValid}

circulating-give_back :
    (s : Store) (ip k : Ip) (r : ℕ)
    → lookup ip s.by_ip ≡ some r
    → circulating k (give_back s ip r ip) ≡ circulating k s
unfolding circulating give_back
circulating-give_back s ip k r found = ground (
  arith,
  count-append k s.available (ip ∷ []),
  count-one k ip,
  leased-delete k ip s.by_ip,
  leased-some ip r s.by_ip found,
)

circulating-visit :
    (due : Lease → Bool) (s : Store) (ip k : Ip)
    → IsValid s
    → circulating k (visit due s ip).0 ≡ circulating k s
unfolding visit
circulating-visit due s ip k v = elim (Option-cases (lookup ip s.by_ip)) [
  | inl e ↦ ground (arith, e)
  | inr (r, e) ↦ ground (arith, e, v.keyed ip r e, circulating-give_back s ip k r e)
]

pub circulating-sweep :
    (due : Lease → Bool) (ips : List Ip) (s : Store) (k : Ip)
    → IsValid s
    → circulating k (sweep due ips s).0 ≡ circulating k s
unfolding sweep
circulating-sweep due [] s k v = refl
circulating-sweep due (ip ∷ ips) s k v =
    circulating-sweep due ips (visit due s ip).0 k (visit-IsValid due s ip v)
    ∙ circulating-visit due s ip k v

circulating-release :
    (s : Store) (c : List ℕ) (ip k : Ip) → circulating k (release s c ip).0 ≡ circulating k s
unfolding release
circulating-release s c ip k = elim (Option-cases (lookup ip s.by_ip)) [
  | inl e ↦ ground (arith, e)
  | inr (r, e) ↦ ground (arith, e, circulating-give_back s ip k r e)
]

circulating-unreserve : (s : Store) (ip k : Ip) → circulating k (unreserve s ip).0 ≡ circulating k s
unfolding unreserve
circulating-unreserve s ip k = elim (Option-cases (lookup ip s.by_ip)) [
  | inl e ↦ ground (arith, e)
  | inr (r, e) ↦ ground (arith, e, circulating-give_back s ip k r e)
]

-- On a well-formed store Renew, Release, Unreserve, Decline, NextAvailable, Expired and Declined
-- leave every address as often in circulation, in the pool or under a lease, as it was.
pub conservation :
    (s : Store) (c : List ℕ) (ip k : Ip) (now : ℕ)
    → IsValid s
    → (circulating k (renew s c ip now).0 ≡ circulating k s)
      × (circulating k (release s c ip).0 ≡ circulating k s)
      × (circulating k (unreserve s ip).0 ≡ circulating k s)
      × (circulating k (decline s ip now).0 ≡ circulating k s)
      × (circulating k (next_available s).0 ≡ circulating k s)
      × (circulating k (expire s now).0 ≡ circulating k s)
      × (circulating k (cool_down s now).0 ≡ circulating k s)
unfolding renew decline next_available expire cool_down
conservation s c ip k now v = (
  unfold circulating renew_held in ground arith,
  circulating-release s c ip k,
  circulating-unreserve s ip k,
  unfold circulating in ground arith,
  unfold circulating in omega (arith, count-rotate k s.available),
  circulating-sweep (is_expired now) (keys s.by_ip) s k v,
  circulating-sweep (is_cooled s.decline_ttl now) (keys s.by_ip) s k v,
)

-- A client that is given a new address loses its old one, which then is neither in the pool nor
-- under a lease: no later call can give it out again before some client asks for it by name.
pub allocate_leaks :
    (s : Store) (c : List ℕ) (ip : Ip) (now : ℕ) (old : Lease)
    → IsValid s
    → get s ip ≡ none
    → get_by_client s c ≡ some old
    → (circulating old.ip s ≡ 1) × (circulating old.ip (allocate s c ip now).0 ≡ 0)
unfolding get get_by_client allocate circulating
allocate_leaks s c ip now old v free has = elim (Option-cases (lookup c s.by_client)) [
  | inl e ↦ absurd (ground (arith, e))
  | inr (q, e) ↦
      unfold allocate_new leased in
      ground (
        arith,
        e,
        v.owned c q e,
        v.exclusive old.ip,
        lookup-allocate_new s c ip old.ip now v,
        count-remove_ip old.ip ip s.available,
      )
]
