-- ===== src/Store/Lifecycle.antt =====
-- What the calls on one address return and what they leave under it.
use mydhcp.Common.{
  ℕ, ◌+◌, ◌≡◌, List, Option, some, none, ite, ◌=?◌, arith, text_eq, nat_eq, Option-cases, inl, inr,
  Result, ok, err,
}
use mydhcp.Common.Maps.{lookup}
use mydhcp.Lease.{Lease, reserved, offered, bound, expired, declined, new_lease}
use mydhcp.Net.{Ip, ip_eq}
use mydhcp.Store.Defs.{
  Store, Error, already_reserved, ip_unavailable, not_found, client_mismatch, wrong_state,
}
use mydhcp.Store.Ops.{reserve, unreserve, offer, allocate, renew, release, decline, get}
use mydhcp.Store.Calls.{
  Call, reserves, releases, unreserves, allocates, renews, declines, takes_next, expires, cools,
  step, failure,
}
use mydhcp.Store.View.{get-allocate_new}
use mydhcp.Store.Invariant.{IsValid}

-- A call on a store that returns an error leaves the store as it was.
pub failure_keeps : (s : Store) (c : Call) (e : Error) → failure s c ≡ some e → step s c ≡ s
unfolding failure step reserve unreserve allocate renew release decline
failure_keeps s (reserves c ip) e h = ground arith
failure_keeps s (releases c ip) e h = ground arith
failure_keeps s (unreserves ip) e h = ground arith
failure_keeps s (allocates c ip now) e h = ground arith
failure_keeps s (renews c ip now) e h = ground arith
failure_keeps s (declines ip now) e h = ground arith
failure_keeps s takes_next e h = ground arith
failure_keeps s (expires now) e h = ground arith
failure_keeps s (cools now) e h = ground arith

-- Who is offered an address: anyone if it has no lease, else the client that it is reserved for
-- or offered to. The error says which of the two it is.
abbrev pub allocate_answer : Option Lease → List ℕ → Lease → Result Error Lease
allocate_answer none c l = ok l
allocate_answer (some old) c l = elim old.state [
  | reserved ↦ ite (old.client_id =? c) (ok l) (err already_reserved)
  | offered ↦ ite (old.client_id =? c) (ok l) (err ip_unavailable)
  | bound ↦ err ip_unavailable
  | expired ↦ err ip_unavailable
  | declined ↦ err ip_unavailable
]

-- The lease that a successful Allocate leaves: what was there, or a new one, as an offer.
abbrev pub offered_lease : Store → Option Lease → List ℕ → Ip → ℕ → Lease
offered_lease s none c ip now = offer s (new_lease ip c offered) now
offered_lease s (some old) c ip now = offer s old now

-- On a well-formed store Allocate answers by the address's lease: it grants an address without a
-- lease, a reserved or offered one to its own client only, and refuses any other with the error
-- that says which of the two it is.
pub allocate_answer_lem :
    (s : Store) (c : List ℕ) (ip : Ip) (now : ℕ)
    → IsValid s
    → (allocate s c ip now).1 ≡ allocate_answer (get s ip) c (offered_lease s (get s ip) c ip now)
unfolding allocate get
allocate_answer_lem s c ip now v = elim (Option-cases (lookup ip s.by_ip)) [
  | inl e ↦ ground (arith, e)
  | inr (r, e) ↦ ground (arith, e, v.owned c r)
]

-- The address then has the lease that the call returned.
pub get-allocate :
    (s : Store) (c : List ℕ) (ip : Ip) (now : ℕ) (l : Lease)
    → IsValid s
    → (allocate s c ip now).1 ≡ ok l
    → get (allocate s c ip now).0 ip ≡ some l
unfolding allocate get
get-allocate s c ip now l v h = elim (Option-cases (lookup ip s.by_ip)) [
  | inl e ↦ ground (arith, e, get-allocate_new s c ip ip now e v)
  | inr (r, e) ↦ ground (arith, e, v.owned c r)
]

-- Renew succeeds exactly for the client of an offered or bound lease.
abbrev pub renew_answer : Option Lease → List ℕ → (Lease → Lease) → Result Error Lease
renew_answer none c bind = err not_found
renew_answer (some old) c bind =
    ite (old.client_id =? c)
      (elim old.state [
        | reserved ↦ err (wrong_state reserved)
        | offered ↦ ok (bind old)
        | bound ↦ ok (bind old)
        | expired ↦ err (wrong_state expired)
        | declined ↦ err (wrong_state declined)
      ])
      (err client_mismatch)

abbrev pub bound_lease : Store → ℕ → Lease → Lease
bound_lease s now l = record l { state = bound; bound_at = now; expires_at = now + s.lease_time }

pub renew_answer_lem :
    (s : Store) (c : List ℕ) (ip : Ip) (now : ℕ)
    → (renew s c ip now).1 ≡ renew_answer (get s ip) c (bound_lease s now)
unfolding renew get
renew_answer_lem s c ip now = ground arith

pub get-renew :
    (s : Store) (c : List ℕ) (ip : Ip) (now : ℕ) (l : Lease)
    → (renew s c ip now).1 ≡ ok l
    → get (renew s c ip now).0 ip ≡ some l
unfolding renew get
get-renew s c ip now l h = ground arith

-- The lease that Allocate returns is the client's offer of that address, for the offer's time.
pub allocate_ok :
    (s : Store) (c : List ℕ) (ip : Ip) (now : ℕ) (l : Lease)
    → IsValid s
    → (allocate s c ip now).1 ≡ ok l
    → (l.ip ≡ ip) × (l.client_id ≡ c) × (l.state ≡ offered) × (l.expires_at ≡ now + s.offer_ttl)
unfolding offer new_lease get
allocate_ok s c ip now l v h = elim (Option-cases (lookup ip s.by_ip)) [
  | inl e ↦ ground (arith, e, allocate_answer_lem s c ip now v)
  | inr (r, e) ↦ ground (arith, e, allocate_answer_lem s c ip now v, v.keyed ip r e)
]

-- A lease stands under its own address.
pub get-ip : (s : Store) (ip : Ip) (l : Lease) → IsValid s → get s ip ≡ some l → l.ip ≡ ip
unfolding get
get-ip s ip l v h = elim (Option-cases (lookup ip s.by_ip)) [
  | inl e ↦ absurd (ground (arith, e))
  | inr (r, e) ↦ ground (arith, e, v.keyed ip r e)
]
