-- ===== src/Store/Invariant/Steps.antt =====
-- Every call keeps the store well-formed, in any order of calls.
use mydhcp.Common.{
  ℕ, ◌+◌, ◌≡◌, refl, Bool, List, [], ◌∷◌, some, arith, text_eq, nat_eq, Option-cases, inl, inr,
  ◌=?◌,
}
use mydhcp.Common.Maps.{keys, lookup}
use mydhcp.Lease.{Lease, State, reserved, offered, bound}
use mydhcp.Net.{Ip, ip_eq}
use mydhcp.Store.Defs.{Store, write, circulating}
use mydhcp.Store.Ops.{
  reserve, unreserve, offer, claim, allocate_held, allocate, renew_held, renew, release, decline,
  next_available,
}
use mydhcp.Store.Pool.{count-rotate}
use mydhcp.Store.Sweep.{visit, sweep, is_expired, is_cooled, expire, cool_down}
use mydhcp.Store.Calls.{
  Call, reserves, releases, unreserves, allocates, renews, declines, takes_next, expires, cools,
  step, run,
}
use mydhcp.Store.Invariant.Fresh.{allocate_new-IsValid}
use mydhcp.Store.Invariant.{
  IsValid, reserve_new-IsValid, rewrite-IsValid, give_back-IsValid, claim-IsValid,
}

pub reserve-IsValid : (s : Store) (c : List ℕ) (ip : Ip) → IsValid s → IsValid (reserve s c ip).0
unfolding reserve
reserve-IsValid s c ip v = ground (arith, reserve_new-IsValid s c ip)

pub unreserve-IsValid : (s : Store) (ip : Ip) → IsValid s → IsValid (unreserve s ip).0
unfolding unreserve
unreserve-IsValid s ip v = elim (Option-cases (lookup ip s.by_ip)) [
  | inl e ↦ rw (e, unreserve) v
  | inr (r, e) ↦ rw (e, unreserve) (ground (arith, give_back-IsValid s ip r e v))
]

claim-offer-IsValid :
    (s : Store) (c : List ℕ) (ip : Ip) (r now : ℕ)
    → (s.heap r).client_id ≡ c
    → lookup ip s.by_ip ≡ some r
    → IsValid s
    → IsValid (claim (record s { heap = write s.heap r (offer s (s.heap r) now) }) c r)
unfolding offer write
claim-offer-IsValid s c ip r now mine found v =
    claim-IsValid (record s { heap = write s.heap r (offer s (s.heap r) now) }) c r (ground arith)
      (ground (arith, v.keyed ip r found))
      (rewrite-IsValid s r (offer s (s.heap r) now) refl refl v)

allocate_held-IsValid :
    (st : State) (s : Store) (c : List ℕ) (ip : Ip) (r now : ℕ)
    → lookup ip s.by_ip ≡ some r
    → IsValid s
    → IsValid (allocate_held st s c r now).0
unfolding allocate_held offer
allocate_held-IsValid reserved s c ip r now found v = elim ((s.heap r).client_id =? c) [
  | yes mine ↦ ground (arith, mine, claim-offer-IsValid s c ip r now mine found v)
  | no other ↦ ground (arith, other, v)
]
allocate_held-IsValid offered s c ip r now found v = ground (
  arith,
  rewrite-IsValid s r (record (s.heap r) { offered_at = now; expires_at = now + s.offer_ttl }) refl
      refl v,
)
allocate_held-IsValid st s c ip r now found v = v

pub allocate-IsValid :
    (s : Store) (c : List ℕ) (ip : Ip) (now : ℕ) → IsValid s → IsValid (allocate s c ip now).0
unfolding allocate
allocate-IsValid s c ip now v = elim (Option-cases (lookup ip s.by_ip)) [
  | inl e ↦ rw (e, allocate) (allocate_new-IsValid s c ip now e v)
  | inr (r, e) ↦ rw (e, allocate) (allocate_held-IsValid (s.heap r).state s c ip r now e v)
]

renew_held-IsValid :
    (st : State) (s : Store) (r now : ℕ) → IsValid s → IsValid (renew_held st s r now).0
unfolding renew_held
renew_held-IsValid offered s r now v = rewrite-IsValid s r _ refl refl v
renew_held-IsValid bound s r now v = rewrite-IsValid s r _ refl refl v
renew_held-IsValid st s r now v = v

pub renew-IsValid :
    (s : Store) (c : List ℕ) (ip : Ip) (now : ℕ) → IsValid s → IsValid (renew s c ip now).0
unfolding renew
renew-IsValid s c ip now v = elim (Option-cases (lookup ip s.by_ip)) [
  | inl e ↦ rw (e, renew) v
  | inr (r, e) ↦ rw (e, renew) (ground (arith, renew_held-IsValid (s.heap r).state s r now v))
]

pub release-IsValid : (s : Store) (c : List ℕ) (ip : Ip) → IsValid s → IsValid (release s c ip).0
unfolding release
release-IsValid s c ip v = elim (Option-cases (lookup ip s.by_ip)) [
  | inl e ↦ rw (e, release) v
  | inr (r, e) ↦ rw (e, release) (ground (arith, give_back-IsValid s ip r e v))
]

pub decline-IsValid : (s : Store) (ip : Ip) (now : ℕ) → IsValid s → IsValid (decline s ip now).0
unfolding decline
decline-IsValid s ip now v = elim (Option-cases (lookup ip s.by_ip)) [
  | inl e ↦ rw (e, decline) v
  | inr (r, e) ↦ rw (e, decline) (rewrite-IsValid s r _ refl refl v)
]

pub next_available-IsValid : (s : Store) → IsValid s → IsValid (next_available s).0
unfolding next_available circulating
next_available-IsValid s v = record {
  keyed = v.keyed;
  owned = v.owned;
  exclusive = λ k. omega (arith, count-rotate k s.available, v.exclusive k);
}

pub visit-IsValid :
    (due : Lease → Bool) (s : Store) (key : Ip) → IsValid s → IsValid (visit due s key).0
unfolding visit
visit-IsValid due s key v = elim (Option-cases (lookup key s.by_ip)) [
  | inl e ↦ rw (e, visit) v
  | inr (r, e) ↦ rw (e, visit, (v.keyed key r e).0) (ground (arith, give_back-IsValid s key r e v))
]

sweep-IsValid :
    (due : Lease → Bool) (ks : List Ip) (s : Store) → IsValid s → IsValid (sweep due ks s).0
unfolding sweep
sweep-IsValid due [] s v = v
sweep-IsValid due (k ∷ ks) s v = sweep-IsValid due ks (visit due s k).0 (visit-IsValid due s k v)

-- Every call keeps a well-formed store well-formed.
pub step-IsValid : (s : Store) (c : Call) → IsValid s → IsValid (step s c)
unfolding step expire cool_down
step-IsValid s (reserves c ip) v = reserve-IsValid s c ip v
step-IsValid s (releases c ip) v = release-IsValid s c ip v
step-IsValid s (unreserves ip) v = unreserve-IsValid s ip v
step-IsValid s (allocates c ip now) v = allocate-IsValid s c ip now v
step-IsValid s (renews c ip now) v = renew-IsValid s c ip now v
step-IsValid s (declines ip now) v = decline-IsValid s ip now v
step-IsValid s takes_next v = next_available-IsValid s v
step-IsValid s (expires now) v = sweep-IsValid (is_expired now) (keys s.by_ip) s v
step-IsValid s (cools now) v = sweep-IsValid (is_cooled s.decline_ttl now) (keys s.by_ip) s v

pub run-IsValid : (s : Store) (cs : List Call) → IsValid s → IsValid (run s cs)
unfolding run
run-IsValid s [] v = v
run-IsValid s (c ∷ cs) v = run-IsValid (step s c) cs (step-IsValid s c v)
