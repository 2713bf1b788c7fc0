-- ===== src/Store/Table/Owners.antt =====
-- The current address of each client, under every operation on the store's state.
use mydhcp.Common.{
  ℕ, ◌≡◌, List, [], ◌∷◌, Option, some, ite, ◌=?◌, arith, text_eq, nat_eq, Option-cases, inl, inr,
  Bool, false, ◌&&◌, count, ltb,
}
use mydhcp.Common.Maps.{lookup, lookup-insert}
use mydhcp.Lease.{Lease}
use mydhcp.Net.{Ip, ip_eq}
use mydhcp.Store.Defs.{Store, write}
use mydhcp.Store.Ops.{reserve_new, give_back, claim, allocate_new, get, get_by_client}
use mydhcp.Store.Sweep.{visit, sweep}
use mydhcp.Store.Pool.{lookup-forget_client}
use mydhcp.Store.Invariant.{IsValid}
use mydhcp.Store.Invariant.Steps.{visit-IsValid}
use mydhcp.Store.Sweeps.{get-visit}
use mydhcp.Store.Table.{address_of, without_address, is_due}

-- The address that the client's own pointer leads to.
abbrev pub owner : Store → List ℕ → Option Ip
owner s c = address_of (get_by_client s c)

pub owner-reserve_new :
    (s : Store) (c d : List ℕ) (ip : Ip)
    → IsValid s
    → owner (reserve_new s c ip) d ≡ ite (c =? d) (some ip) (owner s d)
unfolding reserve_new get_by_client
owner-reserve_new s c d ip v = elim (Option-cases (lookup d s.by_client)) [
  | inl e ↦ ground (arith, e, lookup-insert c d s.fresh s.by_client)
  | inr (q, e) ↦ ground (
    arith,
    e,
    lookup-insert c d s.fresh s.by_client,
    v.owned d q e,
    v.keyed (s.heap q).ip q (v.owned d q e).1,
  )
]

pub owner-write :
    (s : Store) (d : List ℕ) (r : ℕ) (l : Lease)
    → l.ip ≡ (s.heap r).ip
    → owner (record s { heap = write s.heap r l }) d ≡ owner s d
unfolding get_by_client write
owner-write s d r l same = elim (Option-cases (lookup d s.by_client)) [
  | inl e ↦ ground (arith, e)
  | inr (q, e) ↦ ground (arith, e, same)
]

pub owner-give_back :
    (s : Store) (d : List ℕ) (ip : Ip) (r : ℕ)
    → IsValid s
    → lookup ip s.by_ip ≡ some r
    → owner (give_back s ip r ip) d
      ≡ without_address (λ k. ite (ip =? k) Bool.true false) (owner s d)
unfolding give_back get_by_client
owner-give_back s d ip r v found = elim (Option-cases (lookup d s.by_client)) [
  | inl e ↦ ground (arith, e, lookup-forget_client d (s.heap r).client_id r s.by_client)
  | inr (q, e) ↦ ground (
    arith,
    e,
    lookup-forget_client d (s.heap r).client_id r s.by_client,
    v.owned d q e,
    v.keyed ip r found,
    found,
  )
]

pub owner-claim :
    (s : Store) (c d : List ℕ) (ip : Ip) (r : ℕ)
    → IsValid s
    → lookup ip s.by_ip ≡ some r
    → owner (claim s c r) d ≡ ite (c =? d) (some ip) (owner s d)
unfolding claim get_by_client write
owner-claim s c d ip r v found = elim (Option-cases (lookup c s.by_client)) [
  | inl e ↦ elim (Option-cases (lookup d s.by_client)) [
    | inl f ↦ ground (arith, e, f, lookup-insert c d r s.by_client, v.keyed ip r found)
    | inr (p, f) ↦ ground (arith, e, f, lookup-insert c d r s.by_client, v.keyed ip r found)
  ]
  | inr (q, e) ↦ elim (Option-cases (lookup d s.by_client)) [
    | inl f ↦
        ground (arith, e, f, lookup-insert c d r s.by_client, v.keyed ip r found, v.owned c q e)
    | inr (p, f) ↦
        ground (arith, e, f, lookup-insert c d r s.by_client, v.keyed ip r found, v.owned c q e)
  ]
]

pub owner-allocate_new :
    (s : Store) (c d : List ℕ) (ip : Ip) (now : ℕ)
    → IsValid s
    → owner (allocate_new s c ip now) d ≡ ite (c =? d) (some ip) (owner s d)
unfolding allocate_new get_by_client
owner-allocate_new s c d ip now v = elim (Option-cases (lookup d s.by_client)) [
  | inl e ↦ ground (arith, e, lookup-insert c d s.fresh s.by_client)
  | inr (q, e) ↦ ground (
    arith,
    e,
    lookup-insert c d s.fresh s.by_client,
    v.owned d q e,
    v.keyed (s.heap q).ip q (v.owned d q e).1,
  )
]

-- One round of a sweep: the owner of a due address has none any longer.
owner-visit :
    (due : Lease → Bool) (s : Store) (d : List ℕ) (ip : Ip)
    → IsValid s
    → owner (visit due s ip).0 d
      ≡ without_address (λ k. ite (ip =? k) (is_due due (get s k)) false) (owner s d)
unfolding visit
owner-visit due s d ip v = elim (Option-cases (owner s d)) [
  | inl o ↦ elim (Option-cases (lookup ip s.by_ip)) [
    | inl e ↦ ground (arith, o, e)
    | inr (r, e) ↦ ground (arith, o, e, (v.keyed ip r e).0, owner-give_back s d ip r v e)
  ]
  | inr (j, o) ↦ elim (Option-cases (lookup ip s.by_ip)) [
    | inl e ↦ unfold get in ground (arith, o, e)
    | inr (r, e) ↦
        unfold get in ground (arith, o, e, (v.keyed ip r e).0, owner-give_back s d ip r v e)
  ]
]

pub owner-sweep :
    (due : Lease → Bool) (ips : List Ip) (s : Store) (d : List ℕ)
    → IsValid s
    → owner (sweep due ips s).0 d
      ≡ without_address (λ k. ltb 0 (count k ips) && is_due due (get s k)) (owner s d)
unfolding sweep count
owner-sweep due [] s d v = elim (Option-cases (owner s d)) [
  | inl o ↦ ground (arith, o)
  | inr (j, o) ↦ ground (arith, o)
]
owner-sweep due (ip ∷ ips) s d v =
    let later = owner-sweep due ips (visit due s ip).0 d (visit-IsValid due s ip v) in
    elim (Option-cases (owner s d)) [
      | inl o ↦ ground (arith, o, later, owner-visit due s d ip v)
      | inr (j, o) ↦ ground (arith, o, later, owner-visit due s d ip v, get-visit due s ip j v)
    ]
