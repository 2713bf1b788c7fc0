-- ===== src/Subnet/Sound.antt =====
-- The subnets and their stores are well-formed, and the manager's operations keep them so.
use mydhcp.Common.{
  ℕ, ◌≤◌, ◌≡◌, List, [], ◌∷◌, Option, some, arith, Bool-cases, inl, inr, subst, Result, text_eq,
  ◌=?◌, if_pos, if_neg,
}
use mydhcp.Common.Maps.{insert, delete}
use mydhcp.Net.{Ip}
use mydhcp.Net.Cidr.{contains?}
use mydhcp.Store.Defs.{Store}
use mydhcp.Store.Invariant.{IsValid}
use mydhcp.Store.Invariant.Start.{IsIpOrNil, new_memory_store_made}
use mydhcp.Subnet.{Error, Config, Entry, Manager, add, remove, subnet_for_ip, put_store}
use mydhcp.Subnet.Order.{Separate, put_store-Separate, add_outcome, add-Separate, remove-Separate}

-- Every subnet's store is well-formed.
abbrev pub StoresValid : Manager → Type 0
StoresValid [] = Unit {0}
StoresValid ((name, e) ∷ m) = IsValid e.mem × StoresValid m

-- The subnets are apart and their stores are well-formed.
pub record IsSound (m : Manager) : Type 0 where
  pub apart : Separate m
  pub stores : StoresValid m

put_store-StoresValid :
    (m : Manager) (a : Option Ip) (s : Store)
    → IsValid s
    → StoresValid m
    → StoresValid (put_store m a s)
unfolding put_store
put_store-StoresValid [] a s v sv = sv
put_store-StoresValid ((name, e) ∷ m) a s v sv = ground (arith, put_store-StoresValid m a s v sv.1)

pub put_store-IsSound :
    (m : Manager) (a : Option Ip) (s : Store) → IsValid s → IsSound m → IsSound (put_store m a s)
put_store-IsSound m a s v sound = record {
  apart = put_store-Separate m a s sound.apart;
  stores = put_store-StoresValid m a s v sound.stores;
}

pub found-IsValid :
    (m : Manager) (a : Option Ip) (e : Entry)
    → StoresValid m
    → subnet_for_ip m a ≡ some e
    → IsValid e.mem
unfolding subnet_for_ip
found-IsValid [] a e sv h = absurd (ground arith)
found-IsValid ((name, w) ∷ m) a e sv h = elim (Bool-cases (contains? w.cfg.network a)) [
  | inl here ↦
      let same : w ≡ e = ground (arith, here) in subst (λ (x : Entry). IsValid x.mem) same sv.0
  | inr later ↦ found-IsValid m a e sv.1 (ground (arith, later))
]

StoresValid-insert :
    (m : Manager) (name : List ℕ) (e : Entry)
    → IsValid e.mem
    → StoresValid m
    → StoresValid (insert name e m)
unfolding insert
StoresValid-insert [] name e v sv = (v, tt)
StoresValid-insert ((j, w) ∷ m) name e v sv = elim (j =? name) [
  | yes here ↦ rw (if_pos _ here) (v, sv.1)
  | no later ↦ rw (if_neg _ later) (sv.0, StoresValid-insert m name e v sv.1)
]

StoresValid-delete : (m : Manager) (name : List ℕ) → StoresValid m → StoresValid (delete name m)
unfolding delete
StoresValid-delete [] name sv = sv
StoresValid-delete ((j, w) ∷ m) name sv = elim (j =? name) [
  | yes here ↦ rw (if_pos _ here) (StoresValid-delete m name sv.1)
  | no later ↦ rw (if_neg _ later) (sv.0, StoresValid-delete m name sv.1)
]

-- Where the subnets are apart and their stores well-formed, Add of a configuration with a prefix
-- of at most 32 bits and a range of IPv4 addresses or nil keeps them so, whether it succeeds or
-- not.
pub add-IsSound :
    (fuel : ℕ) (m : Manager) (cfg : Config) {m' : Manager} {r : Result Error (Unit {0})}
    → cfg.network.ones ≤ 32
    → IsIpOrNil cfg.range_start
    → IsIpOrNil cfg.range_end
    → IsSound m
    → add fuel m cfg ≡ some (m', r)
    → IsSound m'
add-IsSound fuel m cfg short w v sound h = record {
  apart = add-Separate fuel m cfg short sound.apart h;
  stores = elim (add_outcome fuel m cfg h) [
    | inl same ↦ rw same sound.stores
    | inr (s, new, apart, made, grown) ↦ rw grown (
        StoresValid-insert m cfg.name (record { cfg = cfg; mem = s })
          (new_memory_store_made fuel cfg.range_start cfg.range_end cfg.lease_time cfg.offer_timeout
            cfg.decline_cooldown s w v made)
          sound.stores)
  ];
}

pub remove-IsSound : (m : Manager) (name : List ℕ) → IsSound m → IsSound (remove m name).0
unfolding remove
remove-IsSound m name sound = record {
  apart = remove-Separate m name sound.apart;
  stores = ground (arith, sound.stores, StoresValid-delete m name sound.stores);
}
