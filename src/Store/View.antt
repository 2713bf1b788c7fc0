-- ===== src/Store/View.antt =====
-- The store as a table of leases by address, and what each operation does to that table.
use mydhcp.Common.{
  ℕ, ◌≡◌, List, [], some, none, ite, ◌=?◌, arith, text_eq, nat_eq, Option-cases, inl, inr,
}
use mydhcp.Common.Maps.{lookup, lookup-insert, lookup-delete}
use mydhcp.Lease.{Lease, reserved, offered, new_lease}
use mydhcp.Net.{Ip, ip_eq}
use mydhcp.Store.Defs.{Store, write}
use mydhcp.Store.Ops.{reserve_new, give_back, offer, claim, allocate_new, get, get_by_client}
use mydhcp.Store.Invariant.Fresh.{lookup-allocate_new}
use mydhcp.Store.Invariant.{IsValid}

pub get-reserve_new :
    (s : Store) (c : List ℕ) (ip k : Ip)
    → IsValid s
    → get (reserve_new s c ip) k ≡ ite (ip =? k) (some (new_lease ip c reserved)) (get s k)
unfolding reserve_new get
get-reserve_new s c ip k v = elim (Option-cases (lookup k s.by_ip)) [
  | inl e ↦ ground (arith, e, lookup-insert ip k s.fresh s.by_ip)
  | inr (r, e) ↦ ground (arith, e, lookup-insert ip k s.fresh s.by_ip, v.keyed k r e)
]

-- A write through a pointer is seen under the address of its lease, and nowhere else.
pub get-write :
    (s : Store) (ip k : Ip) (r : ℕ) (l : Lease)
    → IsValid s
    → lookup ip s.by_ip ≡ some r
    → get (record s { heap = write s.heap r l }) k ≡ ite (ip =? k) (some l) (get s k)
unfolding get write
get-write s ip k r l v found = elim (Option-cases (lookup k s.by_ip)) [
  | inl e ↦ ground (arith, e)
  | inr (q, e) ↦ ground (arith, e, v.keyed k q e, v.keyed ip r found)
]

pub get-give_back :
    (s : Store) (ip k : Ip) (r : ℕ) → get (give_back s ip r ip) k ≡ ite (ip =? k) none (get s k)
unfolding give_back get
get-give_back s ip k r = ground (arith, lookup-delete ip k s.by_ip)

-- The client's old lease goes.
pub get-allocate_new :
    (s : Store) (c : List ℕ) (ip k : Ip) (now : ℕ)
    → lookup ip s.by_ip ≡ none
    → IsValid s
    → get (allocate_new s c ip now) k
      ≡ ite (ip =? k) (some (offer s (new_lease ip c offered) now)) (elim (get_by_client s c) [
        | none ↦ get s k
        | some old ↦ ite (old.ip =? k) none (get s k)
      ])
unfolding get get_by_client
get-allocate_new s c ip k now free v = elim (Option-cases (lookup c s.by_client)) [
  | inl e ↦ elim (Option-cases (lookup k s.by_ip)) [
    | inl f ↦ unfold allocate_new write in ground (arith, e, f, lookup-allocate_new s c ip k now v)
    | inr (r, f) ↦
        unfold allocate_new write in
        ground (arith, e, f, lookup-allocate_new s c ip k now v, v.keyed k r f)
  ]
  | inr (q, e) ↦ elim (Option-cases (lookup k s.by_ip)) [
    | inl f ↦
        unfold allocate_new write in
        ground (arith, e, f, lookup-allocate_new s c ip k now v, v.owned c q e)
    | inr (r, f) ↦
        unfold allocate_new write in
        ground (arith, e, f, lookup-allocate_new s c ip k now v, v.keyed k r f, v.owned c q e)
  ]
]

-- The client's other lease loses its client.
pub get-claim :
    (s : Store) (c : List ℕ) (ip k : Ip) (r : ℕ)
    → lookup ip s.by_ip ≡ some r
    → IsValid s
    → get (claim s c r) k ≡ (elim (get_by_client s c) [
      | none ↦ get s k
      | some old ↦
          ite
            (old.ip =? ip)
            (get s k)
            (ite (old.ip =? k) (some (record old { client_id = [] })) (get s k))
    ])
unfolding get get_by_client claim
get-claim s c ip k r found v = elim (Option-cases (lookup c s.by_client)) [
  | inl e ↦ ground (arith, e)
  | inr (q, e) ↦ elim (Option-cases (lookup k s.by_ip)) [
    | inl f ↦ ground (arith, e, f, v.owned c q e, v.keyed ip r found)
    | inr (p, f) ↦ ground (arith, e, f, v.owned c q e, v.keyed ip r found, v.keyed k p f)
  ]
]
