-- ===== src/Store/Table.antt =====
-- What a lease store promises, without its pointers and the order of its pool and its maps: a table
-- of the leases by address, of each client's current address, and of how often an address is in the
-- pool. The calls are functions of that table.
pub mod Owners
pub mod Moves
pub mod Calls
pub mod Refinement
pub mod Cycle
use mydhcp.Common.{
  ℕ, ◌+◌, ◌-◌, List, [], ◌∷◌, Option, some, none, ite, ◌=?◌, nat_eq, text_eq, Bool, false, count,
  if◌then◌else◌,
}
use mydhcp.Lease.{Lease, State, reserved, offered, bound, expired, declined, new_lease}
use mydhcp.Net.{Ip, ip_eq}
use mydhcp.Store.Defs.{
  Store, Error, already_reserved, not_reserved, not_found, ip_unavailable, client_mismatch,
  wrong_state,
}
use mydhcp.Store.Ops.{get, get_by_client}
use mydhcp.Store.Sweep.{is_expired, is_cooled}
use mydhcp.Store.Calls.{
  Call, reserves, releases, unreserves, allocates, renews, declines, takes_next, expires, cools,
}

pub record Table : Type 0 where
  pub lease : Ip → Option Lease
  pub owner : List ℕ → Option Ip
  pub pool : Ip → ℕ
  pub lease_time : ℕ
  pub offer_ttl : ℕ
  pub decline_ttl : ℕ

abbrev pub address_of : Option Lease → Option Ip
address_of none = none
address_of (some l) = some l.ip

-- The table that a store stands for.
abbrev pub table : Store → Table
table s = record {
  lease = get s;
  owner = λ c. address_of (get_by_client s c);
  pool = λ k. count k s.available;
  lease_time = s.lease_time;
  offer_ttl = s.offer_ttl;
  decline_ttl = s.decline_ttl;
}

abbrev pub with_lease : Table → Ip → Option Lease → Ip → Option Lease
with_lease t ip l k = ite (ip =? k) l (t.lease k)

abbrev pub with_owner : Table → List ℕ → Ip → List ℕ → Option Ip
with_owner t c ip d = ite (c =? d) (some ip) (t.owner d)

-- The owners but for those at an address that is given up.
abbrev pub without_address : (Ip → Bool) → Option Ip → Option Ip
without_address gone none = none
without_address gone (some ip) = if gone ip then none else some ip

-- The address leaves the pool.
abbrev pub taken : Table → Ip → Ip → ℕ
taken t ip k = t.pool k - ite (ip =? k) 1 0

abbrev pub vacate : Table → Ip → Table
vacate t ip = record t {
  lease = with_lease t ip none;
  owner = λ c. without_address (λ k. ite (ip =? k) Bool.true false) (t.owner c);
  pool = λ k. t.pool k + ite (ip =? k) 1 0;
}

abbrev pub reserve_table : Table → List ℕ → Ip → Option Lease → Table × Option Error
reserve_table t c ip (some l) = ite (l.client_id =? c) (t, none) (t, some already_reserved)
reserve_table t c ip none = (
  record t {
    lease = with_lease t ip (some (new_lease ip c reserved));
    owner = with_owner t c ip;
    pool = taken t ip;
  },
  none,
)

abbrev pub unreserve_table : Table → Ip → Option Lease → Table × Option Error
unreserve_table t ip none = (t, some not_reserved)
unreserve_table t ip (some l) = elim l.state [
  | reserved ↦ (vacate t ip, none)
  | offered ↦ (t, some (wrong_state offered))
  | bound ↦ (t, some (wrong_state bound))
  | expired ↦ (t, some (wrong_state expired))
  | declined ↦ (t, some (wrong_state declined))
]

abbrev pub release_table : Table → List ℕ → Ip → Option Lease → Table × Option Error
release_table t c ip none = (t, some not_found)
release_table t c ip (some l) = ite (l.client_id =? c) (vacate t ip, none) (t, some client_mismatch)

abbrev pub decline_table : Table → Ip → ℕ → Option Lease → Table × Option Error
decline_table t ip now none = (t, some not_found)
decline_table t ip now (some l) = (
  record t { lease = with_lease t ip (some (record l { state = declined; declined_at = now })) },
  none,
)

abbrev pub renewed : Table → Ip → ℕ → Lease → Table × Option Error
renewed t ip now l = (
  record t {
    lease =
        with_lease t ip
          (some (record l { state = bound; bound_at = now; expires_at = now + t.lease_time }));
  },
  none,
)

abbrev pub renew_table : Table → List ℕ → Ip → ℕ → Option Lease → Table × Option Error
renew_table t c ip now none = (t, some not_found)
renew_table t c ip now (some l) =
    ite (l.client_id =? c)
      (elim l.state [
        | reserved ↦ (t, some (wrong_state reserved))
        | offered ↦ renewed t ip now l
        | bound ↦ renewed t ip now l
        | expired ↦ (t, some (wrong_state expired))
        | declined ↦ (t, some (wrong_state declined))
      ])
      (t, some client_mismatch)

-- The lease as an offer that runs out after the offer's time.
abbrev pub as_offer : Table → ℕ → Lease → Lease
as_offer t now l = record l { state = offered; offered_at = now; expires_at = now + t.offer_ttl }

-- An offer whose time starts anew.
abbrev pub offered_again : Table → ℕ → Lease → Lease
offered_again t now l = record l { offered_at = now; expires_at = now + t.offer_ttl }

abbrev pub anonymous : Option Lease → Option Lease
anonymous none = none
anonymous (some l) = some (record l { client_id = [] })

-- A client that gets its reserved address offered; its lease at another address loses its client.
abbrev pub claim_table : Table → List ℕ → Ip → Lease → Table
claim_table t c ip l = record t {
  lease = λ k. ite (ip =? k) (some l) (elim (t.owner c) [
    | none ↦ t.lease k
    | some old ↦ ite (old =? k) (anonymous (t.lease k)) (t.lease k)
  ]);
  owner = with_owner t c ip;
}

-- A client that gets a new address; its lease at another address goes, and that address is not
-- returned to the pool.
abbrev pub allocate_new_table : Table → List ℕ → Ip → ℕ → Table
allocate_new_table t c ip now = record t {
  lease = λ k.
      ite (ip =? k) (some (as_offer t now (new_lease ip c offered)))
        (elim (t.owner c) [ none ↦ t.lease k | some old ↦ ite (old =? k) none (t.lease k) ]);
  owner = with_owner t c ip;
  pool = taken t ip;
}

abbrev pub allocate_table : Table → List ℕ → Ip → ℕ → Option Lease → Table × Option Error
allocate_table t c ip now none = (allocate_new_table t c ip now, none)
allocate_table t c ip now (some l) = elim l.state [
  | reserved ↦
      ite (l.client_id =? c) (claim_table t c ip (as_offer t now l), none)
        (t, some already_reserved)
  | offered ↦
      ite (l.client_id =? c)
        (record t { lease = with_lease t ip (some (offered_again t now l)) }, none)
        (t, some ip_unavailable)
  | bound ↦ (t, some ip_unavailable)
  | expired ↦ (t, some ip_unavailable)
  | declined ↦ (t, some ip_unavailable)
]

abbrev pub is_due : (Lease → Bool) → Option Lease → Bool
is_due due none = false
is_due due (some l) = due l

-- Every lease that is due is given up.
abbrev pub sweep_table : Table → (Lease → Bool) → Table
sweep_table t due = record t {
  lease = λ k. if is_due due (t.lease k) then none else t.lease k;
  owner = λ c. without_address (λ k. is_due due (t.lease k)) (t.owner c);
  pool = λ k. t.pool k + (if is_due due (t.lease k) then 1 else 0);
}

-- A call on the table, with the error that it returns, if it returns one.
abbrev pub call_table : Table → Call → Table × Option Error
call_table t (reserves c ip) = reserve_table t c ip (t.lease ip)
call_table t (releases c ip) = release_table t c ip (t.lease ip)
call_table t (unreserves ip) = unreserve_table t ip (t.lease ip)
call_table t (allocates c ip now) = allocate_table t c ip now (t.lease ip)
call_table t (renews c ip now) = renew_table t c ip now (t.lease ip)
call_table t (declines ip now) = decline_table t ip now (t.lease ip)
call_table t takes_next = (t, none)
call_table t (expires now) = (sweep_table t (is_expired now), none)
call_table t (cools now) = (sweep_table t (is_cooled t.decline_ttl now), none)

-- The calls in turn, with their errors.
abbrev pub calls_table : Table → List Call → Table × List (Option Error)
calls_table t [] = (t, [])
calls_table t (c ∷ cs) =
    let (t', e) = call_table t c in let (last, es) = calls_table t' cs in (last, e ∷ es)
