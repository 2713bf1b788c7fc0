-- ===== src/Tests/Data.antt =====
-- A pool of three addresses, two clients, and stores that a few calls leave.
use mydhcp.Common.{
  ℕ, ◌<◌, ◌≡◌, refl, List, [], ◌∷◌, some, none, arith, nat_eq, text_eq, Text-discrete,
}
use mydhcp.Common.Maps.{lookup, insert}
use mydhcp.Net.{Ip, IsIp, ip_eq, ip_to_uint32, uint32_to_ip, Ip-discrete}
use mydhcp.Lease.{Lease, offered, bound}
use mydhcp.Store.Defs.{Store}
use mydhcp.Store.Ops.{get, allocate, renew}
use mydhcp.Store.Sweep.{empty_store, new_memory_store}
use mydhcp.Store.Calls.{Call, allocates, renews, declines, run, step}
use mydhcp.Store.Invariant.{IsValid}
use mydhcp.Store.Invariant.Steps.{run-IsValid}
use mydhcp.Store.Invariant.Start.{new_memory_store_made}

abbrev pub host : ℕ → Ip
host n = record { b0 = 10; b1 = 0; b2 = 0; b3 = n }

abbrev pub alice_mac : List ℕ
alice_mac = 2 ∷ 0 ∷ 0 ∷ 0 ∷ 0 ∷ 10 ∷ []

-- The text "02000000000a", as Alice's packets give it.
abbrev pub alice : List ℕ
alice = 48 ∷ 50 ∷ 48 ∷ 48 ∷ 48 ∷ 48 ∷ 48 ∷ 48 ∷ 48 ∷ 48 ∷ 48 ∷ 97 ∷ []

abbrev pub bob : List ℕ
bob = 98 ∷ []

-- The pool 10.0.0.2 to 10.0.0.4; leases last 100, offers 10 and cooldowns 50.
abbrev pub start : Store
start = record (empty_store 100 10 50) { available = host 2 ∷ host 3 ∷ host 4 ∷ [] }

pub host-IsIp : (n : ℕ) → n < 256 → IsIp (host n)
host-IsIp n h = record {
  byte0 = ground arith;
  byte1 = ground arith;
  byte2 = ground arith;
  byte3 = h;
}

pub start_made : new_memory_store 5 (some (host 2)) (some (host 4)) 100 10 50 ≡ some start
unfolding new_memory_store ip_to_uint32 uint32_to_ip
start_made = refl

pub start-IsValid : IsValid start
start-IsValid =
    new_memory_store_made 5 (some (host 2)) (some (host 4)) 100 10 50 start
      (host-IsIp 2 (ground arith)) (host-IsIp 4 (ground arith)) start_made

-- Alice binds the first address, and Bob is offered the second.
abbrev pub served : List Call
served = allocates alice (host 2) 5 ∷ renews alice (host 2) 6 ∷ allocates bob (host 3) 7 ∷ []

abbrev pub busy : Store
busy = run start served

pub busy-IsValid : IsValid busy
busy-IsValid = run-IsValid start served start-IsValid

abbrev pub alice_lease : Lease
alice_lease = record {
  ip = host 2;
  client_id = alice;
  gi_addr = none;
  state = bound;
  offered_at = 5;
  bound_at = 6;
  expires_at = 106;
  declined_at = 0;
}

abbrev pub bob_lease : Lease
bob_lease = record {
  ip = host 3;
  client_id = bob;
  gi_addr = none;
  state = offered;
  offered_at = 7;
  bound_at = 0;
  expires_at = 17;
  declined_at = 0;
}

pub busy-alice : get busy (host 2) ≡ some alice_lease
unfolding run step get lookup allocate renew empty_store insert Ip-discrete Text-discrete
busy-alice = refl

pub busy-bob : get busy (host 3) ≡ some bob_lease
unfolding run step get lookup allocate renew empty_store insert Ip-discrete Text-discrete
busy-bob = refl

-- Bob declines the address that he was offered.
abbrev pub refused : List Call
refused = allocates bob (host 3) 7 ∷ declines (host 3) 8 ∷ []

abbrev pub quiet : Store
quiet = run start refused

pub quiet-IsValid : IsValid quiet
quiet-IsValid = run-IsValid start refused start-IsValid
