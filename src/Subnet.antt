-- ===== src/Subnet.antt =====
-- internal/subnet/manager.go: the active subnets and their lease stores.
pub mod Order
pub mod Sound
pub mod Removal
use mydhcp.Common.{
  ℕ, List, [], ◌∷◌, ◌++◌, Option, some, none, Bool, true, false, ◌||◌, ltb, if◌then◌else◌, text_eq,
  Result, ok, err, ite, ◌=?◌, map,
}
use mydhcp.Common.Maps.{Map, lookup, insert, delete, values}
use mydhcp.Net.{Ip, ip_eq, uint32_to_ip}
use mydhcp.Net.Cidr.{IpNet, contains, contains?}
use mydhcp.Store.Defs.{Store}
use mydhcp.Store.Sweep.{new_memory_store, occupied_count}

pub data Error : Type 0 where
  not_found already_exists overlap has_occupied : Error

-- `none` in an address field is nil, and in `dns` an address that is no IPv4 address.
pub record Config : Type 0 where
  pub name : List ℕ
  pub network : IpNet
  pub router : Option Ip
  pub dns : List (Option Ip)
  pub broadcast : Option Ip
  pub lease_time : ℕ
  pub offer_timeout : ℕ
  pub decline_cooldown : ℕ
  pub lease_reaper_interval : ℕ
  pub range_start : Option Ip
  pub range_end : Option Ip

pub record Entry : Type 0 where
  pub cfg : Config
  pub mem : Store

-- Only the manager and what it hands out point to an entry's store, so the store stands in it.
abbrev pub Manager : Type 0
Manager = Map (List ℕ) Entry

unfoldable pub overlaps : IpNet → IpNet → Bool
overlaps a b = contains a b.ip || contains b a.ip

-- The loop of Add over the subnets.
unfoldable pub overlaps_any : Manager → IpNet → Bool
unfolding overlaps
overlaps_any [] n = false
overlaps_any ((name, e) ∷ m) n = overlaps e.cfg.network n || overlaps_any m n

-- Add. `none` means that the fuel for the loop of NewMemoryStore ran out.
unfoldable pub add : ℕ → Manager → Config → Option (Manager × Result Error (Unit {0}))
unfolding overlaps_any
add fuel m cfg = elim (lookup cfg.name m) [
  | some e ↦ some (m, err already_exists)
  | none ↦
      if overlaps_any m cfg.network
      then some (m, err overlap)
      else elim (new_memory_store fuel cfg.range_start cfg.range_end cfg.lease_time
          cfg.offer_timeout cfg.decline_cooldown) [
            | none ↦ none
            | some s ↦ some (insert cfg.name (record { cfg = cfg; mem = s }) m, ok tt)
          ]
]

unfoldable pub remove : Manager → List ℕ → Manager × Result Error (Unit {0})
remove m name = elim (lookup name m) [
  | none ↦ (m, err not_found)
  | some e ↦ if ltb 0 (occupied_count e.mem) then (m, err has_occupied) else (delete name m, ok tt)
]

-- SubnetForIP: the first entry that contains the address.
unfoldable pub subnet_for_ip : Manager → Option Ip → Option Entry
subnet_for_ip [] a = none
subnet_for_ip ((name, e) ∷ m) a = if contains? e.cfg.network a then some e else subnet_for_ip m a

unfoldable pub is_unspecified : Ip → Bool
is_unspecified a = ite (a =? uint32_to_ip 0) true false

-- The address that ForPacket looks up.
unfoldable pub lookup_address : Option Ip → Option Ip → Option Ip
unfolding is_unspecified
lookup_address none server_ip = server_ip
lookup_address (some giaddr) server_ip = if is_unspecified giaddr then server_ip else some giaddr

unfoldable pub for_packet : Manager → Option Ip → Option Ip → Option Entry
unfolding lookup_address subnet_for_ip
for_packet m giaddr server_ip = subnet_for_ip m (lookup_address giaddr server_ip)

-- Get, and with their one result GetStore and GetLeaseStore.
unfoldable pub get : Manager → List ℕ → Option Entry
get m name = lookup name m

unfoldable pub configs : Manager → List Config
configs m = map (λ e. e.cfg) (values m)

-- The manager after a call on the store that SubnetForIP found left it as `s`.
unfoldable pub put_store : Manager → Option Ip → Store → Manager
put_store [] a s = []
put_store ((name, e) ∷ m) a s =
    if contains? e.cfg.network a
    then (name, record e { mem = s }) ∷ m
    else (name, e) ∷ put_store m a s
