-- ===== src/Subnet/Order.antt =====
-- The subnets do not overlap, so the order in which the map is visited does not matter.
use mydhcp.Common.{
  ℕ, ◌≤◌, ◌≡◌, refl, List, [], ◌∷◌, Option, some, none, true, false, arith, text_eq, ◌⊎◌, inl, inr,
  Result, Option-cases, Bool-cases, ◌=?◌, if_pos, if_neg, ◌∙◌,
}
use mydhcp.Common.Maps.{lookup, insert, delete, lookup-insert, lookup-delete}
use mydhcp.Net.{Ip, ip_eq}
use mydhcp.Net.Cidr.{IpNet, contains, contains?, contains_both}
use mydhcp.Store.Defs.{Store}
use mydhcp.Store.Sweep.{new_memory_store}
use mydhcp.Subnet.{
  Error, Config, Entry, Manager, overlaps, overlaps_any, add, subnet_for_ip, remove, put_store,
}

-- The entries stand for a map without overlaps: every key occurs once, every prefix has at most
-- 32 bits, and no network overlaps a later one.
abbrev pub Separate : Manager → Type 0
Separate [] = Unit {0}
Separate ((name, e) ∷ m) =
    (lookup name m ≡ none)
    × (e.cfg.network.ones ≤ 32)
    × (overlaps_any m e.cfg.network ≡ false)
    × Separate m

held_apart :
    (m : Manager) (n : IpNet) (name : List ℕ) (e : Entry)
    → overlaps_any m n ≡ false
    → lookup name m ≡ some e
    → overlaps e.cfg.network n ≡ false
unfolding overlaps_any lookup
held_apart [] n name e h found = ground arith
held_apart ((j, w) ∷ m) n name e h found = ground (arith, held_apart m n name e)

held_ones :
    (m : Manager) (name : List ℕ) (e : Entry)
    → Separate m
    → lookup name m ≡ some e
    → e.cfg.network.ones ≤ 32
unfolding lookup
held_ones [] name e sep found = ground arith
held_ones ((j, w) ∷ m) name e sep found = ground (arith, held_ones m name e)

-- Where no networks overlap, the subnet whose network contains an address is the one that the
-- lookup of the address finds, wherever it stands in the order.
pub subnet_for_ip_lem :
    (m : Manager) (name : List ℕ) (e : Entry) (a : Ip)
    → Separate m
    → lookup name m ≡ some e
    → contains e.cfg.network a ≡ true
    → subnet_for_ip m (some a) ≡ some e
unfolding subnet_for_ip lookup contains? overlaps
subnet_for_ip_lem [] name e a sep found inside = ground arith
subnet_for_ip_lem ((j, w) ∷ m) name e a sep found inside = elim (j =? name) [
  | yes here ↦ ground (arith, here)
  | no later ↦ ground (
    arith,
    later,
    subnet_for_ip_lem m name e a sep.3,
    held_apart m w.cfg.network name e sep.2,
    held_ones m name e sep.3,
    contains_both e.cfg.network w.cfg.network a,
  )
]

overlaps_comm : (a b : IpNet) → overlaps a b ≡ overlaps b a
unfolding overlaps
overlaps_comm a b = ground arith

overlaps_any-insert :
    (m : Manager) (name : List ℕ) (e : Entry) (n : IpNet)
    → overlaps_any m n ≡ false
    → overlaps e.cfg.network n ≡ false
    → overlaps_any (insert name e m) n ≡ false
unfolding overlaps_any insert
overlaps_any-insert [] name e n h k = ground arith
overlaps_any-insert ((j, w) ∷ m) name e n h k = ground (arith, overlaps_any-insert m name e n)

overlaps_any-delete :
    (m : Manager) (name : List ℕ) (n : IpNet)
    → overlaps_any m n ≡ false
    → overlaps_any (delete name m) n ≡ false
unfolding overlaps_any delete
overlaps_any-delete [] name n h = refl
overlaps_any-delete ((j, w) ∷ m) name n h = ground (arith, overlaps_any-delete m name n)

Separate-insert :
    (m : Manager) (name : List ℕ) (e : Entry)
    → lookup name m ≡ none
    → e.cfg.network.ones ≤ 32
    → overlaps_any m e.cfg.network ≡ false
    → Separate m
    → Separate (insert name e m)
unfolding insert overlaps_any lookup
Separate-insert [] name e absent short apart sep = ground arith
Separate-insert ((j, w) ∷ m) name e absent short apart sep = elim (j =? name) [
  | yes here ↦ absurd (ground (arith, here))
  | no later ↦ rw (if_neg _ later) (
    ground (arith, later, lookup-insert name j e m),
    sep.1,
    overlaps_any-insert m name e w.cfg.network sep.2
        (ground (arith, overlaps_comm e.cfg.network w.cfg.network)),
    Separate-insert m name e (ground (arith, later)) short (ground arith) sep.3,
  )
]

Separate-delete : (m : Manager) (name : List ℕ) → Separate m → Separate (delete name m)
unfolding delete
Separate-delete [] name sep = sep
Separate-delete ((j, w) ∷ m) name sep = elim (j =? name) [
  | yes here ↦ rw (if_pos _ here) (Separate-delete m name sep.3)
  | no later ↦ rw (if_neg _ later) (
    ground (arith, lookup-delete name j m),
    sep.1,
    overlaps_any-delete m name w.cfg.network sep.2,
    Separate-delete m name sep.3,
  )
]

pub add_outcome :
    (fuel : ℕ) (m : Manager) (cfg : Config) {m' : Manager} {r : Result Error (Unit {0})}
    → add fuel m cfg ≡ some (m', r)
    → (m' ≡ m)
      ⊎ ((s : Store) × (lookup cfg.name m ≡ none)
          × (overlaps_any m cfg.network ≡ false)
          × (new_memory_store fuel cfg.range_start cfg.range_end cfg.lease_time cfg.offer_timeout
                cfg.decline_cooldown
              ≡ some s)
          × (m' ≡ insert cfg.name (record { cfg = cfg; mem = s }) m))
unfolding add
add_outcome fuel m cfg h =
    elim (Option-cases (
      new_memory_store fuel cfg.range_start cfg.range_end cfg.lease_time cfg.offer_timeout
        cfg.decline_cooldown)) [
          | inl e ↦ inl (ground (arith, e))
          | inr (s, e) ↦ elim (Option-cases (lookup cfg.name m)) [
            | inl new ↦ elim (Bool-cases (overlaps_any m cfg.network)) [
              | inl clash ↦ inl (ground (arith, e, new, clash))
              | inr apart ↦ inr (s, new, apart, e, ground (arith, e, new, apart))
            ]
            | inr (old, f) ↦ inl (ground (arith, e, f))
          ]
        ]

-- Add keeps the subnets apart, whether it succeeds or not.
pub add-Separate :
    (fuel : ℕ) (m : Manager) (cfg : Config) {m' : Manager} {r : Result Error (Unit {0})}
    → cfg.network.ones ≤ 32
    → Separate m
    → add fuel m cfg ≡ some (m', r)
    → Separate m'
add-Separate fuel m cfg short sep h = elim (add_outcome fuel m cfg h) [
  | inl same ↦ rw same sep
  | inr (s, new, apart, made, grown) ↦
      rw grown (Separate-insert m cfg.name (record { cfg = cfg; mem = s }) new short apart sep)
]

pub remove-Separate : (m : Manager) (name : List ℕ) → Separate m → Separate (remove m name).0
unfolding remove
remove-Separate m name sep = ground (arith, Separate-delete m name sep)

overlaps_any-put_store :
    (m : Manager) (a : Option Ip) (s : Store) (n : IpNet)
    → overlaps_any (put_store m a s) n ≡ overlaps_any m n
unfolding put_store overlaps_any
overlaps_any-put_store [] a s n = refl
overlaps_any-put_store ((j, w) ∷ m) a s n = ground (arith, overlaps_any-put_store m a s n)

absent-put_store :
    (m : Manager) (a : Option Ip) (s : Store) (name : List ℕ)
    → lookup name m ≡ none
    → lookup name (put_store m a s) ≡ none
unfolding put_store lookup
absent-put_store [] a s name h = refl
absent-put_store ((j, w) ∷ m) a s name h = ground (arith, absent-put_store m a s name)

-- A call on the store of a subnet leaves the networks as they are.
pub put_store-Separate :
    (m : Manager) (a : Option Ip) (s : Store) → Separate m → Separate (put_store m a s)
unfolding put_store
put_store-Separate [] a s sep = sep
put_store-Separate ((j, w) ∷ m) a s sep = elim (Bool-cases (contains? w.cfg.network a)) [
  | inl here ↦ rw here sep
  | inr later ↦ rw later (
    absent-put_store m a s j sep.0,
    sep.1,
    overlaps_any-put_store m a s w.cfg.network ∙ sep.2,
    put_store-Separate m a s sep.3,
  )
]

-- The next lookup of the address finds the store as the call left it.
pub subnet_for_ip-put_store :
    (m : Manager) (a : Option Ip) (s : Store) (e : Entry)
    → subnet_for_ip m a ≡ some e
    → subnet_for_ip (put_store m a s) a ≡ some (record e { mem = s })
unfolding put_store subnet_for_ip
subnet_for_ip-put_store [] a s e h = ground arith
subnet_for_ip-put_store ((j, w) ∷ m) a s e h = ground (arith, subnet_for_ip-put_store m a s e)
