-- ===== src/Store/Ops.antt =====
-- The methods of store.MemoryStore that the server calls, one call at a time (each holds the
-- lock). `now` is the reading of the clock that the call makes.
use mydhcp.Common.{
  ℕ, ◌+◌, suc, List, [], ◌∷◌, ◌++◌, Option, some, none, ite, ◌=?◌, nat_eq, text_eq, Result, ok, err,
  Bool, if◌then◌else◌,
}
use mydhcp.Common.Maps.{Map, lookup, insert, delete}
use mydhcp.Lease.{Lease, State, reserved, offered, bound, expired, declined, new_lease}
use mydhcp.Net.{Ip, ip_eq}
use mydhcp.Store.Defs.{
  Store, Error, already_reserved, not_reserved, not_found, ip_unavailable, client_mismatch,
  wrong_state, write, remove_ip,
}

-- Reserve, when no lease has the address.
unfoldable pub reserve_new : Store → List ℕ → Ip → Store
unfolding write remove_ip new_lease
reserve_new s client_id ip = record s {
  available = remove_ip s.available ip;
  heap = write s.heap s.fresh (new_lease ip client_id reserved);
  fresh = suc s.fresh;
  by_ip = insert ip s.fresh s.by_ip;
  by_client = insert client_id s.fresh s.by_client;
}

unfoldable pub reserve : Store → List ℕ → Ip → Store × Result Error (Unit {0})
unfolding reserve_new
reserve s client_id ip = elim (lookup ip s.by_ip) [
  | some r ↦ ite ((s.heap r).client_id =? client_id) (s, ok tt) (s, err already_reserved)
  | none ↦ (reserve_new s client_id ip, ok tt)
]

-- `if s.byClient[c] == l { delete(s.byClient, c) }`
unfoldable pub forget_client : Map (List ℕ) ℕ → List ℕ → ℕ → Map (List ℕ) ℕ
forget_client m c r = elim (lookup c m) [ some q ↦ ite (q =? r) (delete c m) m | none ↦ m ]

-- The lease `r` under `key` goes, and `ip` returns to the end of the pool.
unfoldable pub give_back : Store → Ip → ℕ → Ip → Store
unfolding forget_client
give_back s key r ip = record s {
  by_ip = delete key s.by_ip;
  by_client = forget_client s.by_client (s.heap r).client_id r;
  available = s.available ++ ip ∷ [];
}

unfoldable pub is_reserved : State → Bool
is_reserved reserved = Bool.true
is_reserved offered = Bool.false
is_reserved bound = Bool.false
is_reserved expired = Bool.false
is_reserved declined = Bool.false

unfoldable pub unreserve : Store → Ip → Store × Result Error (Unit {0})
unfolding give_back is_reserved
unreserve s ip = elim (lookup ip s.by_ip) [
  | none ↦ (s, err not_reserved)
  | some r ↦
      if is_reserved (s.heap r).state
      then (give_back s ip r ip, ok tt)
      else (s, err (wrong_state (s.heap r).state))
]

-- The lease becomes an offer that runs out after the offer's time.
unfoldable pub offer : Store → Lease → ℕ → Lease
offer s l now = record l { state = offered; offered_at = now; expires_at = now + s.offer_ttl }

-- `if s.byClient[c] != existing { if old != nil { old.ClientID = "" }; s.byClient[c] = existing }`
unfoldable pub claim : Store → List ℕ → ℕ → Store
unfolding write
claim s c r = elim (lookup c s.by_client) [
  | none ↦ record s { by_client = insert c r s.by_client }
  | some q ↦ ite (q =? r) s (record s {
    heap = write s.heap q (record (s.heap q) { client_id = [] });
    by_client = insert c r s.by_client;
  })
]

-- Allocate, when the address has the lease `r`, by the lease's state.
unfoldable pub allocate_held : State → Store → List ℕ → ℕ → ℕ → Store × Result Error Lease
unfolding write offer claim
allocate_held reserved s c r now =
    ite ((s.heap r).client_id =? c)
      (let s' = claim (record s { heap = write s.heap r (offer s (s.heap r) now) }) c r in
        (s', ok (s'.heap r)))
      (s, err already_reserved)
allocate_held offered s c r now =
    ite ((s.heap r).client_id =? c)
      (let l = record (s.heap r) { offered_at = now; expires_at = now + s.offer_ttl } in
        (record s { heap = write s.heap r l }, ok l))
      (s, err ip_unavailable)
allocate_held bound s c r now = (s, err ip_unavailable)
allocate_held expired s c r now = (s, err ip_unavailable)
allocate_held declined s c r now = (s, err ip_unavailable)

-- `if old := s.byClient[c]; old != nil && old != l { delete(s.byIP, old.IP.String()) }`
unfoldable pub drop_old : (ℕ → Lease) → Map Ip ℕ → Option ℕ → ℕ → Map Ip ℕ
drop_old heap m none r = m
drop_old heap m (some q) r = ite (q =? r) m (delete (heap q).ip m)

-- Allocate, when no lease has the address.
unfoldable pub allocate_new : Store → List ℕ → Ip → ℕ → Store
unfolding write remove_ip new_lease offer drop_old
allocate_new s c ip now =
    let heap = write s.heap s.fresh (offer s (new_lease ip c offered) now) in
    record s {
      available = remove_ip s.available ip;
      heap = heap;
      fresh = suc s.fresh;
      by_ip = drop_old heap (insert ip s.fresh s.by_ip) (lookup c s.by_client) s.fresh;
      by_client = insert c s.fresh s.by_client;
    }

unfoldable pub allocate : Store → List ℕ → Ip → ℕ → Store × Result Error Lease
unfolding allocate_held allocate_new
allocate s c ip now = elim (lookup ip s.by_ip) [
  | some r ↦ allocate_held (s.heap r).state s c r now
  | none ↦ let s' = allocate_new s c ip now in (s', ok (s'.heap s.fresh))
]

-- Renew, when the client's lease `r` has the address, by the lease's state.
unfoldable pub renew_held : State → Store → ℕ → ℕ → Store × Result Error Lease
unfolding write
renew_held st s r now = elim st [
  | offered ↦ (record s { heap = write s.heap r bind }, ok bind)
  | bound ↦ (record s { heap = write s.heap r bind }, ok bind)
  | reserved ↦ (s, err (wrong_state reserved))
  | expired ↦ (s, err (wrong_state expired))
  | declined ↦ (s, err (wrong_state declined))
]
  where
    bind : Lease
    bind = record (s.heap r) { state = bound; bound_at = now; expires_at = now + s.lease_time }

unfoldable pub renew : Store → List ℕ → Ip → ℕ → Store × Result Error Lease
unfolding renew_held
renew s c ip now = elim (lookup ip s.by_ip) [
  | none ↦ (s, err not_found)
  | some r ↦
      ite ((s.heap r).client_id =? c) (renew_held (s.heap r).state s r now) (s, err client_mismatch)
]

unfoldable pub release : Store → List ℕ → Ip → Store × Result Error (Unit {0})
unfolding give_back
release s c ip = elim (lookup ip s.by_ip) [
  | none ↦ (s, err not_found)
  | some r ↦ ite ((s.heap r).client_id =? c) (give_back s ip r ip, ok tt) (s, err client_mismatch)
]

unfoldable pub decline : Store → Ip → ℕ → Store × Result Error (Unit {0})
unfolding write
decline s ip now = elim (lookup ip s.by_ip) [
  | none ↦ (s, err not_found)
  | some r ↦ (
    record s { heap = write s.heap r (record (s.heap r) { state = declined; declined_at = now }) },
    ok tt,
  )
]

unfoldable pub get : Store → Ip → Option Lease
get s ip = elim (lookup ip s.by_ip) [ none ↦ none | some r ↦ some (s.heap r) ]

unfoldable pub get_by_client : Store → List ℕ → Option Lease
get_by_client s c = elim (lookup c s.by_client) [ none ↦ none | some r ↦ some (s.heap r) ]

-- The first address of the pool, which moves to the end.
unfoldable pub rotate : List Ip → List Ip
rotate [] = []
rotate (ip ∷ ips) = ips ++ ip ∷ []

unfoldable pub first : List Ip → Option Ip
first [] = none
first (ip ∷ ips) = some ip

unfoldable pub next_available : Store → Store × Option Ip
unfolding rotate first
next_available s = (record s { available = rotate s.available }, first s.available)
