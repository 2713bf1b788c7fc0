-- ===== src/Store/Invariant.antt =====
-- The well-formedness of a store, and that every operation keeps it.
pub mod Fresh
pub mod Steps
pub mod Start
use mydhcp.Common.{
  ℕ, ◌+◌, ◌≤◌, ◌<◌, ◌≡◌, refl, List, [], ◌∷◌, Option, some, none, ite, arith, count, count-append,
  count-one, text_eq, nat_eq, Option-cases, inl, inr, if_pos, if_neg, ◌=?◌,
}
use mydhcp.Common.Maps.{Map, lookup, insert, lookup-insert, lookup-delete}
use mydhcp.Lease.{Lease, State, reserved, offered, bound, expired, declined, new_lease}
use mydhcp.Net.{Ip, ip_eq}
use mydhcp.Store.Defs.{Store, write, remove_ip, leased, circulating}
use mydhcp.Store.Ops.{
  reserve_new, reserve, give_back, unreserve, offer, claim, allocate_held, allocate_new, allocate,
  renew_held, renew, release, decline, next_available, drop_old, forget_client,
}
use mydhcp.Store.Pool.{
  count-remove_ip, count-rotate, leased-insert, leased-delete, leased-some, leased-none,
  lookup-forget_client,
}

-- Each entry's lease has the entry's key, the client map points into the address map, and no
-- address is in circulation twice.
pub record IsValid (s : Store) : Type 0 where
  pub keyed : (k : Ip) (r : ℕ) → lookup k s.by_ip ≡ some r → ((s.heap r).ip ≡ k) × (r < s.fresh)
  pub owned :
      (c : List ℕ) (r : ℕ)
      → lookup c s.by_client ≡ some r
      → ((s.heap r).client_id ≡ c) × (lookup (s.heap r).ip s.by_ip ≡ some r)
  pub exclusive : (k : Ip) → circulating k s ≤ 1

pub reserve_new-IsValid :
    (s : Store) (c : List ℕ) (ip : Ip)
    → lookup ip s.by_ip ≡ none
    → IsValid s
    → IsValid (reserve_new s c ip)
unfolding reserve_new circulating
reserve_new-IsValid s c ip free v = record {
  keyed = λ k r h. ground (arith, lookup-insert ip k s.fresh s.by_ip, v.keyed k r);
  owned = λ c' r h. ground (
    arith,
    lookup-insert c c' s.fresh s.by_client,
    lookup-insert ip ip s.fresh s.by_ip,
    lookup-insert ip (s.heap r).ip s.fresh s.by_ip,
    v.owned c' r,
    v.keyed (s.heap r).ip r,
  );
  exclusive = λ k. ground (
    arith,
    count-remove_ip k ip s.available,
    leased-insert k ip s.fresh s.by_ip,
    leased-none ip s.by_ip free,
    v.exclusive k,
  );
}

-- A lease that keeps its address and its client may be rewritten in place.
pub rewrite-IsValid :
    (s : Store) (r : ℕ) (l : Lease)
    → l.ip ≡ (s.heap r).ip
    → l.client_id ≡ (s.heap r).client_id
    → IsValid s
    → IsValid (record s { heap = write s.heap r l })
unfolding write circulating
rewrite-IsValid s r l same_ip same_client v = record {
  keyed = λ k q h. ground (arith, v.keyed k q h);
  owned = λ c q h. ground (arith, v.owned c q h);
  exclusive = λ k. v.exclusive k;
}

pub give_back-IsValid :
    (s : Store) (key : Ip) (r : ℕ)
    → lookup key s.by_ip ≡ some r
    → IsValid s
    → IsValid (give_back s key r key)
unfolding give_back circulating
give_back-IsValid s key r found v = record {
  keyed = λ k q h. ground (arith, lookup-delete key k s.by_ip, v.keyed k q);
  owned = λ c q h. ground (
    arith,
    lookup-forget_client c (s.heap r).client_id r s.by_client,
    lookup-delete key (s.heap q).ip s.by_ip,
    v.owned c q,
    v.keyed key r found,
  );
  exclusive = λ k. ground (
    arith,
    count-append k s.available (key ∷ []),
    count-one k key,
    leased-delete k key s.by_ip,
    leased-some key r s.by_ip found,
    v.exclusive k,
  );
}

pub claim-IsValid :
    (s : Store) (c : List ℕ) (r : ℕ)
    → (s.heap r).client_id ≡ c
    → lookup (s.heap r).ip s.by_ip ≡ some r
    → IsValid s
    → IsValid (claim s c r)
unfolding claim write circulating
claim-IsValid s c r mine found v = record {
  keyed = λ k q h. ground (arith, v.keyed k q);
  owned = λ c' q h. ground (arith, lookup-insert c c' r s.by_client, v.owned c' q, v.owned c q);
  exclusive = λ k. ground (arith, v.exclusive k);
}
