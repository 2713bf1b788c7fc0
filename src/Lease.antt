-- ===== src/Lease.antt =====
-- internal/lease/lease.go: the lease record and its states.
use mydhcp.Common.{ℕ, List, Option, Bool, true, false}
use mydhcp.Net.{Ip}

pub data State : Type 0 where
  reserved offered bound expired declined : State

pub State-discrete : Discrete State
State-discrete = hlevel

-- A Go string is the list of its bytes. A time is a count of nanoseconds with the zero time at 0.
pub record Lease : Type 0 where
  pub ip : Ip
  pub client_id : List ℕ
  pub gi_addr : Option Ip
  pub state : State
  pub offered_at : ℕ
  pub bound_at : ℕ
  pub expires_at : ℕ
  pub declined_at : ℕ

-- The lease of a composite literal that names only the address, the client and the state.
unfoldable pub new_lease : Ip → List ℕ → State → Lease
new_lease ip client_id state = record {
  ip = ip;
  client_id = client_id;
  gi_addr = Option.none;
  state = state;
  offered_at = 0;
  bound_at = 0;
  expires_at = 0;
  declined_at = 0;
}

-- Reserved, Offered and Bound leases hold their address.
unfoldable pub occupies : State → Bool
occupies reserved = true
occupies offered = true
occupies bound = true
occupies expired = false
occupies declined = false
