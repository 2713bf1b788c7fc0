-- ===== src/Dhcp/Handler/Rediscover.antt =====
-- A DISCOVER of a client that already holds a bound lease, such as one that restarts.
use mydhcp.Common.{
  ℕ, ◌≡◌, sym, ◌∙◌, ap, List, Option, some, none, arith, Option-cases, inl, inr, text_eq, nat_eq,
  err,
}
use mydhcp.Common.Maps.{lookup}
use mydhcp.Lease.{Lease, bound, occupies}
use mydhcp.Net.{Ip, ip_eq}
use mydhcp.Store.Defs.{Store, circulating, ip_unavailable}
use mydhcp.Store.Ops.{get, get_by_client, allocate, next_available, first}
use mydhcp.Store.Lifecycle.{allocate_answer_lem}
use mydhcp.Store.Supply.{next_available_lem}
use mydhcp.Store.Conservation.{conservation, allocate_leaks}
use mydhcp.Store.Invariant.Steps.{next_available-IsValid}
use mydhcp.Store.Invariant.{IsValid}
use mydhcp.Subnet.{Config}
use mydhcp.Ztp.Defs.{Device, Profile}
use mydhcp.Dhcp.Packet.{Packet, client_id}
use mydhcp.Dhcp.Handler.{
  lease_of, try_preferred, try_pool, find_lease, handle_discover, preferred_ip, current_ip,
  static_ip, or_else,
}
use mydhcp.Dhcp.Handler.Offers.{find_lease_pool, try_pool-some}
use mydhcp.Dhcp.Handler.Discover.{discover-store}

own-get :
    (s : Store) (c : List ℕ) (old : Lease)
    → IsValid s
    → get_by_client s c ≡ some old
    → get s old.ip ≡ some old
unfolding get get_by_client
own-get s c old v h = elim (Option-cases (lookup c s.by_client)) [
  | inl e ↦ absurd (ground (arith, e))
  | inr (q, e) ↦ ground (arith, e, v.owned c q e)
]

-- Allocate refuses the address of the client's own bound lease.
bound_refused :
    (s : Store) (c : List ℕ) (old : Lease) (now : ℕ)
    → IsValid s
    → get_by_client s c ≡ some old
    → old.state ≡ bound
    → (try_preferred s c (some old.ip) now).1 ≡ none
unfolding try_preferred lease_of
bound_refused s c old now v has st =
    let held = own-get s c old v has in
    let answer : (allocate s c old.ip now).1 ≡ err ip_unavailable =
      ground (arith, allocate_answer_lem s c old.ip now v, held, st) in
    ground (arith, answer)

prefers_current :
    (pkt : Packet) (cfg : Config) (s : Store) (device : Option Device) (old : Lease)
    → static_ip device ≡ none
    → get_by_client s (client_id pkt) ≡ some old
    → old.state ≡ bound
    → preferred_ip pkt cfg s device ≡ some old.ip
unfolding preferred_ip current_ip occupies or_else
prefers_current pkt cfg s device old dynamic has st = ground (arith, dynamic, has, st)

pool_leaks :
    (s : Store) (c : List ℕ) (ip : Ip) (now : ℕ) (old : Lease)
    → IsValid s
    → first s.available ≡ some ip
    → get_by_client s c ≡ some old
    → (circulating old.ip s ≡ 1) × (circulating old.ip (try_pool s c now).0 ≡ 0)
pool_leaks s c ip now old v pooled has =
    let t = (next_available s).0 in
    let next : (next_available s).1 ≡ some ip = unfold next_available in pooled in
    let free : get t ip ≡ none =
      unfold next_available get in (next_available_lem s c ip now v next).0 in
    let has' : get_by_client t c ≡ some old = unfold next_available get_by_client in has in
    let (before, after) = allocate_leaks t c ip now old (next_available-IsValid s v) free has' in
    (
      sym (conservation s c ip old.ip now v).4 ∙ before,
      ap (λ (r : Store × Option Lease). circulating old.ip r.0) (try_pool-some s c ip now next)
          ∙ after,
    )

-- A DISCOVER of a client without a static address that holds a bound lease, while the pool has an
-- address, takes the client's old address out of circulation.
pub rediscover_leaks :
    (server_ip : Option Ip) (pkt : Packet) (cfg : Config) (s : Store) (device : Option Device)
    → (profile : Option Profile) (now : ℕ) (old : Lease) (ip : Ip) → IsValid s
    → static_ip device ≡ none
    → get_by_client s (client_id pkt) ≡ some old
    → old.state ≡ bound
    → first s.available ≡ some ip
    → (circulating old.ip s ≡ 1)
      × (circulating old.ip (handle_discover server_ip pkt cfg s device profile now).store ≡ 0)
rediscover_leaks server_ip pkt cfg s device profile now old ip v dynamic has st pooled =
    let c = client_id pkt in
    let prefers = prefers_current pkt cfg s device old dynamic has st in
    let chosen : find_lease s c (preferred_ip pkt cfg s device) now ≡ try_pool s c now =
      ap (λ p. find_lease s c p now) prefers
      ∙ find_lease_pool s c (some old.ip) now (bound_refused s c old now v has st) in
    let left : (handle_discover server_ip pkt cfg s device profile now).store
        ≡ (try_pool s c now).0 =
      discover-store server_ip pkt cfg s device profile now
      ∙ ap (λ (r : Store × Option Lease). r.0) chosen in
    let (before, after) = pool_leaks s c ip now old v pooled has in
    (before, ap (circulating old.ip) left ∙ after)
