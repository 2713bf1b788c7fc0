-- ===== src/Store/Sweeps.antt =====
-- What a sweep of the reaper leaves.
use mydhcp.Common.{
  ◌∙◌, ◌&&◌, ◌+◌, ℕ, ◌<◌, ◌≡◌, refl, List, [], ◌∷◌, Option, some, none, ite, ◌=?◌, arith, text_eq,
  nat_eq, Option-cases, inl, inr, count, Bool, ltb, if◌then◌else◌,
}
use mydhcp.Common.Maps.{Map, lookup, keys}
use mydhcp.Lease.{Lease, reserved, offered, bound, expired, declined}
use mydhcp.Net.{Ip, ip_eq}
use mydhcp.Store.Defs.{Store, circulating}
use mydhcp.Store.Ops.{get}
use mydhcp.Store.Sweep.{
  visit, sweep, expire, cool_down, is_expired, is_cooled, runs_out, is_declined,
}
use mydhcp.Store.View.{get-give_back}
use mydhcp.Store.Conservation.{circulating-sweep}
use mydhcp.Store.Invariant.Steps.{visit-IsValid}
use mydhcp.Store.Invariant.{IsValid}

-- The lease under an address, unless it is due.
abbrev pub unless_due : (Lease → Bool) → Option Lease → Option Lease
unless_due due none = none
unless_due due (some l) = if due l then none else some l

pub get-visit :
    (due : Lease → Bool) (s : Store) (ip k : Ip)
    → IsValid s
    → get (visit due s ip).0 k ≡ ite (ip =? k) (unless_due due (get s k)) (get s k)
unfolding visit get
get-visit due s ip k v = elim (Option-cases (lookup ip s.by_ip)) [
  | inl e ↦ ground (arith, e)
  | inr (r, e) ↦ unfold get in ground (arith, e, v.keyed ip r e, get-give_back s ip k r)
]

get-sweep :
    (due : Lease → Bool) (ips : List Ip) (s : Store) (k : Ip)
    → IsValid s
    → get (sweep due ips s).0 k
      ≡ (if ltb 0 (count k ips) then unless_due due (get s k) else get s k)
unfolding sweep count
get-sweep due [] s k v = refl
get-sweep due (ip ∷ ips) s k v = ground (
  arith,
  get-visit due s ip k v,
  get-sweep due ips (visit due s ip).0 k (visit-IsValid due s ip v),
)

pub listed : (k : Ip) (m : Map Ip ℕ) (r : ℕ) → lookup k m ≡ some r → 0 < count k (keys m)
unfolding lookup keys count
listed k [] r h = ground arith
listed k ((j, q) ∷ m) r h = ground (arith, listed k m r)

pub get-sweep_all :
    (due : Lease → Bool) (s : Store) (k : Ip)
    → IsValid s
    → get (sweep due (keys s.by_ip) s).0 k ≡ unless_due due (get s k)
get-sweep_all due s k v = elim (Option-cases (lookup k s.by_ip)) [
  | inl e ↦ unfold get in ground (arith, e, get-sweep due (keys s.by_ip) s k v)
  | inr (r, e) ↦ ground (arith, e, get-sweep due (keys s.by_ip) s k v, listed k s.by_ip r e)
]

-- Nothing, if a time is set and past, and the lease otherwise.
abbrev pub until_past : ℕ → ℕ → Lease → Option Lease
until_past time now l = if ltb 0 time && ltb time now then none else some l

-- What an offered or bound lease past its time, and a declined one past its cooldown, come to.
abbrev pub unexpired : ℕ → Option Lease → Option Lease
unexpired now none = none
unexpired now (some l) = elim l.state [
  | reserved ↦ some l
  | offered ↦ until_past l.expires_at now l
  | bound ↦ until_past l.expires_at now l
  | expired ↦ some l
  | declined ↦ some l
]

abbrev pub uncooled : ℕ → ℕ → Option Lease → Option Lease
uncooled ttl now none = none
uncooled ttl now (some l) = elim l.state [
  | reserved ↦ some l
  | offered ↦ some l
  | bound ↦ some l
  | expired ↦ some l
  | declined ↦ if ltb (l.declined_at + ttl) now then none else some l
]

unless_due-is_expired :
    (now : ℕ) (o : Option Lease) → unless_due (is_expired now) o ≡ unexpired now o
unfolding is_expired runs_out
unless_due-is_expired now none = refl
unless_due-is_expired now (some l) = ground arith

unless_due-is_cooled :
    (ttl now : ℕ) (o : Option Lease) → unless_due (is_cooled ttl now) o ≡ uncooled ttl now o
unfolding is_cooled is_declined
unless_due-is_cooled ttl now none = refl
unless_due-is_cooled ttl now (some l) = ground arith

-- After Expired on a well-formed store an address has the lease that it had, unless that was an
-- offered or bound one past its time, which is gone; and the address is as often in circulation as
-- it was.
pub expire_lem :
    (s : Store) (now : ℕ) (k : Ip)
    → IsValid s
    → (get (expire s now).0 k ≡ unexpired now (get s k))
      × (circulating k (expire s now).0 ≡ circulating k s)
unfolding expire
expire_lem s now k v = (
  get-sweep_all (is_expired now) s k v ∙ unless_due-is_expired now (get s k),
  circulating-sweep (is_expired now) (keys s.by_ip) s k v,
)

-- After Declined on a well-formed store an address has the lease that it had, unless that was a
-- declined one past its cooldown, which is gone; and the address is as often in circulation as it
-- was.
pub cool_down_lem :
    (s : Store) (now : ℕ) (k : Ip)
    → IsValid s
    → (get (cool_down s now).0 k ≡ uncooled s.decline_ttl now (get s k))
      × (circulating k (cool_down s now).0 ≡ circulating k s)
unfolding cool_down
cool_down_lem s now k v = (
  get-sweep_all (is_cooled s.decline_ttl now) s k v
      ∙ unless_due-is_cooled s.decline_ttl now (get s k),
  circulating-sweep (is_cooled s.decline_ttl now) (keys s.by_ip) s k v,
)
