-- ===== src/Store/Invariant/Start.antt =====
-- The constructor of a store gives a well-formed one, and so does every history of calls on it.
use mydhcp.Common.{
  ℕ, ◌+◌, ◌-◌, ◌<◌, ◌≡◌, subst, List, Option, some, none, arith, Option-cases, inl, inr, text_eq,
  count,
}
use mydhcp.Common.Maps.{lookup}
use mydhcp.Net.{Ip, IsIp, ip_eq, ip_to_uint32}
use mydhcp.Store.Defs.{Store, leased, circulating}
use mydhcp.Store.Sweep.{fill, empty_store, new_memory_store}
use mydhcp.Store.Calls.{Call, run}
use mydhcp.Store.Range.{in_range, Fills, fill-Fills, fill_outcome}
use mydhcp.Store.Invariant.{IsValid}
use mydhcp.Store.Invariant.Steps.{run-IsValid}

-- A new store holds the range in its pool, each address once, and nothing else.
pub new_memory_store-IsValid :
    (fuel : ℕ) (start end : Ip) (lease_time offer_ttl decline_ttl : ℕ)
    → ip_to_uint32 end < 4294967295
    → ip_to_uint32 end + 1 - ip_to_uint32 start < fuel
    → (s : Store) × (new_memory_store fuel (some start) (some end) lease_time offer_ttl decline_ttl
        ≡ some s)
      × Fills (ip_to_uint32 start) (ip_to_uint32 end) s.available
      × IsValid s
unfolding new_memory_store circulating leased lookup in_range
new_memory_store-IsValid fuel start end lease_time offer_ttl decline_ttl small enough =
    let (ips, filled, f) = fill-Fills fuel (ip_to_uint32 start) (ip_to_uint32 end) small enough in
    (
      record (empty_store lease_time offer_ttl decline_ttl) { available = ips },
      ground (arith, filled),
      f,
      record {
        keyed = λ k r h. ground arith;
        owned = λ c r h. ground arith;
        exclusive = λ k. ground (arith, f.at_most k);
      },
    )

-- An address that is nil, or an IPv4 address.
abbrev pub IsIpOrNil : Option Ip → Type 0
IsIpOrNil none = Unit {0}
IsIpOrNil (some a) = IsIp a

empty_store-IsValid :
    (lease_time offer_ttl decline_ttl : ℕ) → IsValid (empty_store lease_time offer_ttl decline_ttl)
unfolding empty_store circulating leased lookup count
empty_store-IsValid lease_time offer_ttl decline_ttl = record {
  keyed = λ k r h. ground arith;
  owned = λ c r h. ground arith;
  exclusive = λ k. ground arith;
}

filled_store-IsValid :
    (lease_time offer_ttl decline_ttl : ℕ) (ips : List Ip) (first last : ℕ)
    → Fills first last ips
    → IsValid (record (empty_store lease_time offer_ttl decline_ttl) { available = ips })
unfolding empty_store circulating leased lookup in_range
filled_store-IsValid lease_time offer_ttl decline_ttl ips first last f = record {
  keyed = λ k r h. ground arith;
  owned = λ c r h. ground arith;
  exclusive = λ k. ground (arith, f.at_most k);
}

-- Whatever its range, a store that the constructor returns is well-formed.
pub new_memory_store_made :
    (fuel : ℕ) (start end : Option Ip) (lease_time offer_ttl decline_ttl : ℕ) (s : Store)
    → IsIpOrNil start
    → IsIpOrNil end
    → new_memory_store fuel start end lease_time offer_ttl decline_ttl ≡ some s
    → IsValid s
unfolding new_memory_store
new_memory_store_made fuel none end lease_time offer_ttl decline_ttl s w v made =
    subst IsValid (cc (made)) (empty_store-IsValid lease_time offer_ttl decline_ttl)
new_memory_store_made fuel (some start) none lease_time offer_ttl decline_ttl s w v made =
    subst IsValid (cc (made)) (empty_store-IsValid lease_time offer_ttl decline_ttl)
new_memory_store_made fuel (some start) (some end) lease_time offer_ttl decline_ttl s w v made =
    elim (Option-cases (fill fuel (ip_to_uint32 start) (ip_to_uint32 end))) [
      | inl e ↦ absurd (ground (arith, made, e))
      | inr (ips, e) ↦
          let same : record (empty_store lease_time offer_ttl decline_ttl) { available = ips } ≡ s =
            ground (arith, made, e) in
          let f = fill_outcome fuel start end ips w v e in
          subst IsValid same (
            filled_store-IsValid lease_time offer_ttl decline_ttl ips (ip_to_uint32 start)
              (ip_to_uint32 end) f)
    ]

-- For a range whose end is below 255.255.255.255 and enough fuel the constructor gives a store,
-- and after every list of calls that store is well-formed: each entry's lease has the entry's
-- address, the client map points into the address map, and no address is in circulation twice.
pub history-IsValid :
    (fuel : ℕ) (start end : Ip) (lease_time offer_ttl decline_ttl : ℕ) (cs : List Call)
    → ip_to_uint32 end < 4294967295
    → ip_to_uint32 end + 1 - ip_to_uint32 start < fuel
    → (s : Store) × (new_memory_store fuel (some start) (some end) lease_time offer_ttl decline_ttl
        ≡ some s)
      × IsValid (run s cs)
history-IsValid fuel start end lease_time offer_ttl decline_ttl cs small enough =
    let (s, made, _, v) =
      new_memory_store-IsValid fuel start end lease_time offer_ttl decline_ttl small enough in
    (s, made, run-IsValid s cs v)
