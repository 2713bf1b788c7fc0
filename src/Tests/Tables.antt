-- ===== src/Tests/Tables.antt =====
-- The theorems on a store's table at work.
use mydhcp.Common.{◌≡◌, List, [], ◌∷◌}
use mydhcp.Store.Ops.{next_available}
use mydhcp.Store.Calls.{Call, reserves, releases, declines, takes_next, expires, cools, run}
use mydhcp.Store.Invariant.Steps.{next_available-IsValid}
use mydhcp.Store.Table.{table, calls_table}
use mydhcp.Store.Table.Calls.{next_available-table}
use mydhcp.Store.Table.Refinement.{failures, run-calls_table, same_failures}
use mydhcp.Tests.Data.{host, bob, busy, busy-IsValid}

-- Bob's offer runs out, he reserves an address and fails to release Alice's, whose is then declined.
abbrev later : List Call
later =
    takes_next
    ∷ expires 20
    ∷ reserves bob (host 4)
    ∷ releases bob (host 2)
    ∷ declines (host 2) 30
    ∷ cools 90
    ∷ []

run-calls_table_example :
    (table (run busy later), failures busy later) ≡ calls_table (table busy) later
run-calls_table_example = run-calls_table busy later busy-IsValid

-- A store whose pool is turned.
same_failures_example :
    (failures (next_available busy).0 later ≡ failures busy later)
    × (table (run (next_available busy).0 later) ≡ table (run busy later))
same_failures_example =
    same_failures (next_available busy).0 busy later (next_available-IsValid busy busy-IsValid)
      busy-IsValid (next_available-table busy)
