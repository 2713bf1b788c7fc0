-- ===== src/Dashboard/Totals.antt =====
-- The dashboard's figures are the store's: the size of a subnet's pool, and the leases.
use mydhcp.Common.{
  ℕ, zero, suc, ◌+◌, ◌-◌, ◌%◌, ◌<◌, ◌≡◌, ◌∙◌, refl, sym, ap, List, [], ◌∷◌, Option, some, none,
  arith, Bool-cases, Option-cases, inl, inr, leb, length, text_eq, nat_eq, ◌=?◌,
}
use mydhcp.Net.{Ip, IsIp, ip_to_uint32, uint32_to_ip, ip_to_uint32-lt}
use mydhcp.Store.Defs.{Store}
use mydhcp.Store.Sweep.{fill, new_memory_store, empty_store}
use mydhcp.Store.Range.{fill_diverges}
use mydhcp.Store.Invariant.Start.{IsIpOrNil}
use mydhcp.Subnet.{Config, Manager, configs}
use mydhcp.Api.Parse.{Parsers}
use mydhcp.Api.Subnets.{leases_of, list_from, list_leases}
use mydhcp.Api.Answer.{Body, answers}
use mydhcp.Dashboard.{count_range, state_from, handle_state}

length-fill :
    (fuel cur last : ℕ) (ips : List Ip)
    → last < 4294967295
    → fill fuel cur last ≡ some ips
    → length ips ≡ last + 1 - cur
unfolding fill
length-fill zero cur last ips small h = absurd (ground arith)
length-fill (suc fuel) cur last ips small h = elim (Bool-cases (leb cur last)) [
  | inr done ↦ ground (arith, done)
  | inl more ↦
      let next : (cur + 1) % 4294967296 ≡ cur + 1 = ground arith in
      elim (Option-cases (fill fuel (cur + 1) last)) [
        | inl e ↦ absurd (ground (arith, more, next, e))
        | inr (rest, e) ↦
            let same : uint32_to_ip cur ∷ rest ≡ ips = ground (arith, more, next, e) in
            let ih = length-fill fuel (cur + 1) last rest small e in
            ap length (sym same) ∙ ground (arith, more, ih)
      ]
]

-- A loop that ends had an end below 255.255.255.255.
length-filled :
    (fuel : ℕ) (start end : Ip) (ips : List Ip)
    → IsIp start
    → IsIp end
    → fill fuel (ip_to_uint32 start) (ip_to_uint32 end) ≡ some ips
    → length ips ≡ ip_to_uint32 end + 1 - ip_to_uint32 start
length-filled fuel start end ips w v h = elim (ip_to_uint32 end =? 4294967295) [
  | yes last ↦
      absurd
        (ground (arith, h, last, fill_diverges fuel (ip_to_uint32 start) (ip_to_uint32-lt start w)))
  | no below ↦
      length-fill fuel (ip_to_uint32 start) (ip_to_uint32 end) ips
        (ground (arith, below, ip_to_uint32-lt end v)) h
]

-- For a range of IPv4 addresses, or of nil ends, the total that the dashboard shows is the number
-- of addresses in the pool of the store that the constructor makes for the range, if it returns.
pub count_range-new_memory_store :
    (fuel : ℕ) (start end : Option Ip) (lease_time offer_ttl decline_ttl : ℕ) (s : Store)
    → IsIpOrNil start
    → IsIpOrNil end
    → new_memory_store fuel start end lease_time offer_ttl decline_ttl ≡ some s
    → count_range start end ≡ length s.available
unfolding new_memory_store empty_store count_range
count_range-new_memory_store fuel none end lease_time offer_ttl decline_ttl s w v made =
    ground (arith, made)
count_range-new_memory_store fuel (some a) none lease_time offer_ttl decline_ttl s w v made =
    ground (arith, made)
count_range-new_memory_store fuel (some a) (some b) lease_time offer_ttl decline_ttl s w v made =
    elim (Option-cases (fill fuel (ip_to_uint32 a) (ip_to_uint32 b))) [
      | inl e ↦ absurd (ground (arith, made, e))
      | inr (ips, e) ↦
          let pool : ips ≡ s.available = ground (arith, made, e) in
          let size = length-filled fuel a b ips w v e in ground (arith, size) ∙ ap length pool
    ]

state_from-list_from :
    (p : Parsers) (m : Manager) (cfgs : List Config)
    → (state_from p m cfgs).1 ≡ list_from p m [] cfgs
unfolding state_from list_from leases_of
state_from-list_from p m [] = refl
state_from-list_from p m (cfg ∷ cfgs) = ground (arith, state_from-list_from p m cfgs)

-- The dashboard's leases are those that the API lists without a filter, in the same order.
pub handle_state-list_leases :
    (p : Parsers) (m : Manager)
    → list_leases p m [] ≡ answers 200 (Body.leases (handle_state p m).1)
unfolding handle_state list_leases
handle_state-list_leases p m =
    ap (λ ls. answers 200 (Body.leases ls)) (sym (state_from-list_from p m (configs m)))
