-- ===== src/Store/Defs.antt =====
-- The state of store.MemoryStore. Both maps hold pointers to lease objects, and a write through
-- one map is seen through the other: a pointer is a number, and `heap` says what it points to.
use mydhcp.Common.{ℕ, ◌+◌, List, [], ◌∷◌, some, none, ite, ◌=?◌, nat_eq, text_eq, count}
use mydhcp.Common.Maps.{Map, lookup}
use mydhcp.Lease.{Lease, State}
use mydhcp.Net.{Ip, ip_eq}

pub data Error : Type 0 where
  already_reserved not_reserved not_found ip_unavailable client_mismatch : Error
  wrong_state : State → Error

pub record Store : Type 0 where
  pub by_ip : Map Ip ℕ
  pub by_client : Map (List ℕ) ℕ
  pub heap : ℕ → Lease
  pub fresh : ℕ
  pub available : List Ip
  pub lease_time : ℕ
  pub offer_ttl : ℕ
  pub decline_ttl : ℕ

-- `*p = l`, and `p = &l` at the next free pointer.
unfoldable pub write : (ℕ → Lease) → ℕ → Lease → ℕ → Lease
write h p l q = ite (p =? q) l (h q)

-- removeIP: drops the first address that equals the given one.
unfoldable pub remove_ip : List Ip → Ip → List Ip
remove_ip [] ip = []
remove_ip (v ∷ vs) ip = ite (v =? ip) vs (v ∷ remove_ip vs ip)

-- How many of the pointers that the map by address holds are under this address: 0 or 1.
unfoldable pub leased : Ip → Map Ip ℕ → ℕ
leased k m = elim (lookup k m) [ none ↦ 0 | some r ↦ 1 ]

-- How often an address is in circulation: in the pool, or under a lease.
unfoldable pub circulating : Ip → Store → ℕ
unfolding leased
circulating k s = count k s.available + leased k s.by_ip
