-- ===== src/Store/Calls.antt =====
-- A history of a store: the calls that its lock puts in some order.
use mydhcp.Common.{ℕ, List, [], ◌∷◌, Option, some, none, Result, ok, err}
use mydhcp.Net.{Ip}
use mydhcp.Store.Defs.{Store, Error}
use mydhcp.Store.Ops.{reserve, unreserve, allocate, renew, release, decline, next_available}
use mydhcp.Store.Sweep.{expire, cool_down}

-- The calls of the interface lease.Store that may change the store, each with its arguments and
-- the time at which it reads the clock.
pub data Call : Type 0 where
  reserves releases : List ℕ → Ip → Call
  unreserves : Ip → Call
  allocates renews : List ℕ → Ip → ℕ → Call
  declines : Ip → ℕ → Call
  takes_next : Call
  expires cools : ℕ → Call

unfoldable pub step : Store → Call → Store
step s (reserves c ip) = (reserve s c ip).0
step s (releases c ip) = (release s c ip).0
step s (unreserves ip) = (unreserve s ip).0
step s (allocates c ip now) = (allocate s c ip now).0
step s (renews c ip now) = (renew s c ip now).0
step s (declines ip now) = (decline s ip now).0
step s takes_next = (next_available s).0
step s (expires now) = (expire s now).0
step s (cools now) = (cool_down s now).0

unfoldable pub run : Store → List Call → Store
run s [] = s
run s (c ∷ cs) = run (step s c) cs

unfoldable pub error_of {ℓ} : {A : Type ℓ} → Result Error A → Option Error
error_of (ok a) = none
error_of (err e) = some e

-- The error that a call returns, if it returns one.
unfoldable pub failure : Store → Call → Option Error
unfolding error_of
failure s (reserves c ip) = error_of (reserve s c ip).1
failure s (releases c ip) = error_of (release s c ip).1
failure s (unreserves ip) = error_of (unreserve s ip).1
failure s (allocates c ip now) = error_of (allocate s c ip now).1
failure s (renews c ip now) = error_of (renew s c ip now).1
failure s (declines ip now) = error_of (decline s ip now).1
failure s takes_next = none
failure s (expires now) = none
failure s (cools now) = none
