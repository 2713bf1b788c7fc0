-- ===== src/Store/Table/Moves.antt =====
-- What the writes of the store's methods do to its table.
use mydhcp.Common.{
  ℕ, ◌≡◌, refl, List, [], ◌∷◌, Option, some, none, arith, text_eq, nat_eq, Option-cases, inl, inr,
  count-append, count-one,
}
use mydhcp.Common.Maps.{lookup}
use mydhcp.Lease.{Lease}
use mydhcp.Net.{Ip, ip_eq}
use mydhcp.Store.Defs.{Store, write}
use mydhcp.Store.Ops.{reserve_new, give_back, claim, allocate_new, get, get_by_client, offer}
use mydhcp.Store.Pool.{count-remove_ip}
use mydhcp.Store.Invariant.{IsValid}
use mydhcp.Store.View.{get-reserve_new, get-write, get-give_back, get-allocate_new, get-claim}
use mydhcp.Store.Table.{
  Table, table, vacate, reserve_table, with_lease, allocate_new_table, claim_table,
}
use mydhcp.Store.Table.Owners.{
  owner-reserve_new, owner-write, owner-give_back, owner-claim, owner-allocate_new,
}

-- Two tables with the same times that agree everywhere.
abbrev pub Agree : Table → Table → Type 0
Agree t u =
    ((k : Ip) → t.lease k ≡ u.lease k)
    × ((c : List ℕ) → t.owner c ≡ u.owner c)
    × ((k : Ip) → t.pool k ≡ u.pool k)

pub same_table :
    (t u : Table)
    → t.lease_time ≡ u.lease_time
    → t.offer_ttl ≡ u.offer_ttl
    → t.decline_ttl ≡ u.decline_ttl
    → Agree t u
    → t ≡ u
same_table t u p q r (leases, owners, pools) = λ i. record {
  lease = λ k. leases k i;
  owner = λ c. owners c i;
  pool = λ k. pools k i;
  lease_time = p i;
  offer_ttl = q i;
  decline_ttl = r i;
}

pub table-give_back :
    (s : Store) (ip : Ip) (r : ℕ)
    → IsValid s
    → lookup ip s.by_ip ≡ some r
    → table (give_back s ip r ip) ≡ vacate (table s) ip
unfolding give_back
table-give_back s ip r v found = same_table _ _ refl refl refl (
  (λ k. get-give_back s ip k r),
  (λ c. owner-give_back s c ip r v found),
  (λ k. omega (arith, count-append k s.available (ip ∷ []), count-one k ip)),
)

pub table-write :
    (s : Store) (ip : Ip) (r : ℕ) (l : Lease)
    → IsValid s
    → lookup ip s.by_ip ≡ some r
    → l.ip ≡ (s.heap r).ip
    → table (record s { heap = write s.heap r l })
      ≡ record (table s) { lease = with_lease (table s) ip (some l) }
table-write s ip r l v found same =
    same_table _ _ refl refl refl
      ((λ k. get-write s ip k r l v found), (λ c. owner-write s c r l same), (λ k. refl))

pub table-reserve_new :
    (s : Store) (c : List ℕ) (ip : Ip)
    → IsValid s
    → table (reserve_new s c ip) ≡ (reserve_table (table s) c ip none).0
unfolding reserve_new
table-reserve_new s c ip v = same_table _ _ refl refl refl (
  (λ k. get-reserve_new s c ip k v),
  (λ d. owner-reserve_new s c d ip v),
  (λ k. count-remove_ip k ip s.available),
)

-- A client's own pointer leads to the lease that stands under its address.
pub owned_get :
    (s : Store) (c : List ℕ) (old : Lease)
    → IsValid s
    → get_by_client s c ≡ some old
    → get s old.ip ≡ some old
unfolding get_by_client get
owned_get s c old v h = elim (Option-cases (lookup c s.by_client)) [
  | inl e ↦ absurd (ground (arith, e))
  | inr (q, e) ↦ ground (arith, e, v.owned c q e)
]

pub table-allocate_new :
    (s : Store) (c : List ℕ) (ip : Ip) (now : ℕ)
    → IsValid s
    → lookup ip s.by_ip ≡ none
    → table (allocate_new s c ip now) ≡ allocate_new_table (table s) c ip now
table-allocate_new s c ip now v free =
    same_table _ _ (unfold allocate_new in refl) (unfold allocate_new in refl)
      (unfold allocate_new in refl)
      (
        (λ k. elim (Option-cases (get_by_client s c)) [
          | inl o ↦ unfold offer in ground (arith, o, get-allocate_new s c ip k now free v)
          | inr (old, o) ↦ unfold offer in ground (arith, o, get-allocate_new s c ip k now free v)
        ]),
        (λ d. owner-allocate_new s c d ip now v),
        (λ k. unfold allocate_new in count-remove_ip k ip s.available),
      )

pub table-claim :
    (s : Store) (c : List ℕ) (ip : Ip) (r : ℕ) (l : Lease)
    → IsValid s
    → lookup ip s.by_ip ≡ some r
    → get s ip ≡ some l
    → table (claim s c r) ≡ claim_table (table s) c ip l
table-claim s c ip r l v found held =
    same_table _ _ (unfold claim in ground arith) (unfold claim in ground arith)
      (unfold claim in ground arith)
      (
        (λ k. elim (Option-cases (get_by_client s c)) [
          | inl o ↦ ground (arith, o, get-claim s c ip k r found v, held)
          | inr (old, o) ↦
              ground (arith, o, get-claim s c ip k r found v, held, owned_get s c old v o)
        ]),
        (λ d. owner-claim s c d ip r v found),
        (λ k. unfold claim in ground arith),
      )

-- Whatever the lease at the address was, the claim leaves this one.
pub claim_overwrites :
    (t : Table) (c : List ℕ) (ip : Ip) (l : Lease) (o : Option Lease)
    → claim_table (record t { lease = with_lease t ip o }) c ip l ≡ claim_table t c ip l
claim_overwrites t c ip l o = same_table _ _ refl refl refl (
  (λ k. elim (Option-cases (t.owner c)) [
    | inl e ↦ ground (arith, e)
    | inr (old, e) ↦ ground (arith, e)
  ]),
  (λ d. refl),
  (λ k. refl),
)
