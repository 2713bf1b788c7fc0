-- ===== src/Tests/Stores.antt =====
-- The theorems on a lease store at work.
use mydhcp.Common.{List, ◌≡◌, some, none, arith, nat_eq, text_eq}
use mydhcp.Net.{Ip, ip_eq, ip_to_uint32}
use mydhcp.Store.Defs.{Store, circulating}
use mydhcp.Store.Ops.{get, allocate, renew, release, reserve, decline, unreserve, next_available}
use mydhcp.Store.Sweep.{new_memory_store, fill, expire, cool_down}
use mydhcp.Store.Calls.{run}
use mydhcp.Store.Range.{fill_diverges, fill-Fills, Fills}
use mydhcp.Store.Invariant.{IsValid}
use mydhcp.Store.Invariant.Start.{history-IsValid}
use mydhcp.Store.Isolation.{isolation}
use mydhcp.Store.Conservation.{conservation}
use mydhcp.Store.Sweeps.{unexpired, expire_lem}
use mydhcp.Tests.Data.{host, alice, served, busy, busy-IsValid, bob_lease, busy-bob}

history-IsValid_example :
    (s : Store) × (new_memory_store 5 (some (host 2)) (some (host 4)) 100 10 50 ≡ some s)
    × IsValid (run s served)
history-IsValid_example =
    history-IsValid 5 (host 2) (host 4) 100 10 50 served (unfold ip_to_uint32 in ground arith)
      (unfold ip_to_uint32 in ground arith)

isolation_example :
    (get (allocate busy alice (host 2) 20).0 (host 3) ≡ some bob_lease)
    × (get (renew busy alice (host 2) 20).0 (host 3) ≡ some bob_lease)
    × (get (release busy alice (host 2)).0 (host 3) ≡ some bob_lease)
    × (get (reserve busy alice (host 2)).0 (host 3) ≡ some bob_lease)
    × (get (decline busy (host 2) 20).0 (host 3) ≡ some bob_lease)
isolation_example =
    isolation busy alice (host 2) (host 3) bob_lease busy-IsValid busy-bob (ground arith)
      (ground arith) 20

conservation_example :
    (circulating (host 2) (renew busy alice (host 2) 20).0 ≡ circulating (host 2) busy)
    × (circulating (host 2) (release busy alice (host 2)).0 ≡ circulating (host 2) busy)
    × (circulating (host 2) (unreserve busy (host 2)).0 ≡ circulating (host 2) busy)
    × (circulating (host 2) (decline busy (host 2) 20).0 ≡ circulating (host 2) busy)
    × (circulating (host 2) (next_available busy).0 ≡ circulating (host 2) busy)
    × (circulating (host 2) (expire busy 20).0 ≡ circulating (host 2) busy)
    × (circulating (host 2) (cool_down busy 20).0 ≡ circulating (host 2) busy)
conservation_example = conservation busy alice (host 2) (host 2) 20 busy-IsValid

expire_lem_example :
    (get (expire busy 20).0 (host 3) ≡ unexpired 20 (get busy (host 3)))
    × (circulating (host 3) (expire busy 20).0 ≡ circulating (host 3) busy)
expire_lem_example = expire_lem busy 20 (host 3) busy-IsValid

fill_diverges_example : fill 100 4294967290 4294967295 ≡ none
fill_diverges_example = fill_diverges 100 4294967290 (ground arith)

fill-Fills_example :
    (ips : List Ip) × (fill 10 167772162 167772170 ≡ some ips) × Fills 167772162 167772170 ips
fill-Fills_example = fill-Fills 10 167772162 167772170 (omega arith) (omega arith)
