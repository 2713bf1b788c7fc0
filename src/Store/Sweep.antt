-- ===== src/Store/Sweep.antt =====
-- The constructor of store.MemoryStore and its methods that visit every lease.
use mydhcp.Common.{
  ℕ, zero, suc, ◌+◌, ◌%◌, List, [], ◌∷◌, ◌++◌, map, Option, some, none, Bool, false, ◌&&◌, not, ltb,
  leb, ◌==◌, if◌then◌else◌, text_eq, nat_eq,
}
use mydhcp.Common.Maps.{lookup, keys, values}
use mydhcp.Lease.{Lease, State, reserved, offered, bound, expired, declined, new_lease, occupies}
use mydhcp.Net.{Ip, ip_eq, ip_to_uint32, uint32_to_ip}
use mydhcp.Store.Defs.{Store}
use mydhcp.Store.Ops.{give_back, is_reserved}

-- `for cur <= last { ...; cur++ }` on uint32; `none` means that the fuel ran out.
unfoldable pub fill : ℕ → ℕ → ℕ → Option (List Ip)
fill zero cur last = none
fill (suc fuel) cur last =
    let rest = fill fuel ((cur + 1) % 4294967296) last in
    if leb cur last
    then elim rest [ none ↦ none | some ips ↦ some (uint32_to_ip cur ∷ ips) ]
    else some []

unfoldable pub empty_store : ℕ → ℕ → ℕ → Store
unfolding new_lease
empty_store lease_time offer_ttl decline_ttl = record {
  by_ip = [];
  by_client = [];
  heap = λ r. new_lease (uint32_to_ip 0) [] reserved;
  fresh = 0;
  available = [];
  lease_time = lease_time;
  offer_ttl = offer_ttl;
  decline_ttl = decline_ttl;
}

-- NewMemoryStore; a start or an end that is no IPv4 address leaves the pool empty.
unfoldable pub new_memory_store : ℕ → Option Ip → Option Ip → ℕ → ℕ → ℕ → Option Store
unfolding empty_store fill
new_memory_store fuel none end lease_time offer_ttl decline_ttl =
    some (empty_store lease_time offer_ttl decline_ttl)
new_memory_store fuel (some start) none lease_time offer_ttl decline_ttl =
    some (empty_store lease_time offer_ttl decline_ttl)
new_memory_store fuel (some start) (some end) lease_time offer_ttl decline_ttl =
    elim (fill fuel (ip_to_uint32 start) (ip_to_uint32 end)) [
      | none ↦ none
      | some ips ↦ some (record (empty_store lease_time offer_ttl decline_ttl) { available = ips })
    ]

-- The state's part of the test in Expired.
unfoldable pub runs_out : State → Bool
runs_out reserved = false
runs_out offered = Bool.true
runs_out bound = Bool.true
runs_out expired = false
runs_out declined = false

unfoldable pub is_declined : State → Bool
is_declined reserved = false
is_declined offered = false
is_declined bound = false
is_declined expired = false
is_declined declined = Bool.true

-- Expired takes the offered and bound leases whose time is set and past.
unfoldable pub is_expired : ℕ → Lease → Bool
unfolding runs_out
is_expired now l = runs_out l.state && (not (l.expires_at == 0) && ltb l.expires_at now)

-- Declined takes the declined leases whose cooldown is past.
unfoldable pub is_cooled : ℕ → ℕ → Lease → Bool
unfolding is_declined
is_cooled ttl now l = is_declined l.state && ltb (l.declined_at + ttl) now

-- One round of the loop over the map: an entry that is gone is not visited.
unfoldable pub visit : (Lease → Bool) → Store → Ip → Store × List Lease
unfolding give_back
visit due s key = elim (lookup key s.by_ip) [
  | none ↦ (s, [])
  | some r ↦ if due (s.heap r) then (give_back s key r (s.heap r).ip, s.heap r ∷ []) else (s, [])
]

unfoldable pub sweep : (Lease → Bool) → List Ip → Store → Store × List Lease
sweep due [] s = (s, [])
sweep due (key ∷ rest) s =
    let now = visit due s key in let later = sweep due rest now.0 in (later.0, now.1 ++ later.1)

unfoldable pub expire : Store → ℕ → Store × List Lease
unfolding sweep visit is_expired
expire s now = sweep (is_expired now) (keys s.by_ip) s

unfoldable pub cool_down : Store → ℕ → Store × List Lease
unfolding sweep visit is_cooled
cool_down s now = sweep (is_cooled s.decline_ttl now) (keys s.by_ip) s

-- List
unfoldable pub leases : Store → List Lease
leases s = map s.heap (values s.by_ip)

unfoldable pub count_if : (State → Bool) → List Lease → ℕ
count_if p [] = 0
count_if p (l ∷ ls) = (if p l.state then 1 else 0) + count_if p ls

-- OccupiedCount
unfoldable pub occupied_count : Store → ℕ
unfolding count_if leases occupies
occupied_count s = count_if occupies (leases s)

unfoldable pub is_offered : State → Bool
is_offered reserved = false
is_offered offered = Bool.true
is_offered bound = false
is_offered expired = false
is_offered declined = false

unfoldable pub is_bound : State → Bool
is_bound reserved = false
is_bound offered = false
is_bound bound = Bool.true
is_bound expired = false
is_bound declined = false

-- OccupiedByState: the reserved, the offered and the bound leases.
unfoldable pub occupied_by_state : Store → ℕ × ℕ × ℕ
unfolding count_if leases
occupied_by_state s =
    (count_if is_reserved (leases s), count_if is_offered (leases s), count_if is_bound (leases s))
