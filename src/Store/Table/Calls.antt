-- ===== src/Store/Table/Calls.antt =====
-- Each method of the store is the call on its table.
use mydhcp.Common.{
  ap, sym, if_pos, Result, ok, err, ℕ, ◌≡◌, refl, ◌∙◌, List, Option, some, none, ite, ◌=?◌, arith,
  text_eq, nat_eq, Option-cases, inl, inr, if◌then◌else◌,
}
use mydhcp.Common.Maps.{lookup}
use mydhcp.Lease.{Lease, State, reserved, offered, bound, expired, declined}
use mydhcp.Net.{Ip, ip_eq}
use mydhcp.Store.Defs.{
  Store, write, Error, already_reserved, not_found, client_mismatch, not_reserved, wrong_state,
  ip_unavailable,
}
use mydhcp.Store.Ops.{
  reserve_new, reserve, give_back, claim, allocate_new, get, get_by_client, unreserve, is_reserved,
  offer, release, decline, renew, allocate, renew_held, allocate_held, next_available,
}
use mydhcp.Store.Pool.{count-rotate}
use mydhcp.Store.Invariant.{IsValid, rewrite-IsValid}
use mydhcp.Store.Calls.{error_of}
use mydhcp.Store.View.{get-write}
use mydhcp.Store.Table.{
  Table, table, vacate, reserve_table, unreserve_table, release_table, decline_table, renew_table,
  allocate_table, with_lease, renewed, claim_table, as_offer, offered_again,
}
use mydhcp.Store.Table.Moves.{
  table-give_back, table-write, table-reserve_new, table-allocate_new, table-claim,
  claim_overwrites, same_table,
}

-- What a call on the store is to be: its table and its error.
abbrev pub outcome {ℓ} : {A : Type ℓ} → Store × Result Error A → Table × Option Error
outcome (s, r) = (table s, error_of r)

get-none : (s : Store) (ip : Ip) → lookup ip s.by_ip ≡ none → get s ip ≡ none
unfolding get
get-none s ip e = ground (arith, e)

get-some : (s : Store) (ip : Ip) (r : ℕ) → lookup ip s.by_ip ≡ some r → get s ip ≡ some (s.heap r)
unfolding get
get-some s ip r e = ground (arith, e)

-- A call by what it comes to and by the address's lease.
by_lease {ℓ} :
    {A : Type ℓ} (f : Option Lease → Table × Option Error) (out x : Store × Result Error A)
    {o o' : Option Lease}
    → o ≡ o'
    → out ≡ x
    → outcome x ≡ f o'
    → outcome out ≡ f o
by_lease f out x p q r = ap outcome q ∙ r ∙ ap f (sym p)

outcome-ite {ℓ κ} :
    {A : Type ℓ} {P : Type κ} (x y : Store × Result Error A) {t u : Table × Option Error}
    (d : Dec P)
    → outcome x ≡ t
    → outcome y ≡ u
    → outcome (ite d x y) ≡ ite d t u
outcome-ite x y (yes p) q r = q
outcome-ite x y (no p) q r = r

pub reserve-table :
    (s : Store) (c : List ℕ) (ip : Ip)
    → IsValid s
    → outcome (reserve s c ip) ≡ reserve_table (table s) c ip (get s ip)
unfolding error_of
reserve-table s c ip v = elim (Option-cases (lookup ip s.by_ip)) [
  | inl e ↦
      by_lease (reserve_table (table s) c ip) (reserve s c ip) (reserve_new s c ip, ok tt)
        (get-none s ip e) (unfold reserve in ground (arith, e))
        (ap (λ t. (t, none)) (table-reserve_new s c ip v))
  | inr (r, e) ↦
      by_lease (reserve_table (table s) c ip) (reserve s c ip)
        (ite ((s.heap r).client_id =? c) (s, ok tt) (s, err already_reserved)) (get-some s ip r e)
        (unfold reserve in ground (arith, e))
        (outcome-ite (s, ok tt) (s, err already_reserved) ((s.heap r).client_id =? c) refl refl)
]

pub release-table :
    (s : Store) (c : List ℕ) (ip : Ip)
    → IsValid s
    → outcome (release s c ip) ≡ release_table (table s) c ip (get s ip)
unfolding error_of
release-table s c ip v = elim (Option-cases (lookup ip s.by_ip)) [
  | inl e ↦
      by_lease (release_table (table s) c ip) (release s c ip) (s, err not_found) (get-none s ip e)
        (unfold release in ground (arith, e)) refl
  | inr (r, e) ↦
      by_lease (release_table (table s) c ip) (release s c ip)
        (ite ((s.heap r).client_id =? c) (give_back s ip r ip, ok tt) (s, err client_mismatch))
        (get-some s ip r e) (unfold release in ground (arith, e))
        (outcome-ite (give_back s ip r ip, ok tt) (s, err client_mismatch)
          ((s.heap r).client_id =? c) (ap (λ t. (t, none)) (table-give_back s ip r v e)) refl)
]

pub decline-table :
    (s : Store) (ip : Ip) (now : ℕ)
    → IsValid s
    → outcome (decline s ip now) ≡ decline_table (table s) ip now (get s ip)
unfolding error_of
decline-table s ip now v = elim (Option-cases (lookup ip s.by_ip)) [
  | inl e ↦
      by_lease (decline_table (table s) ip now) (decline s ip now) (s, err not_found)
        (get-none s ip e) (unfold decline in ground (arith, e)) refl
  | inr (r, e) ↦
      let l = record (s.heap r) { state = declined; declined_at = now } in
      by_lease (decline_table (table s) ip now) (decline s ip now)
        (record s { heap = write s.heap r l }, ok tt) (get-some s ip r e)
        (unfold decline in ground (arith, e)) (ap (λ t. (t, none)) (table-write s ip r l v e refl))
]

unreserve_found :
    (s : Store) (ip : Ip) (r : ℕ) (st : State)
    → IsValid s
    → lookup ip s.by_ip ≡ some r
    → outcome {A = Unit {0}}
        (if is_reserved st then (give_back s ip r ip, ok tt) else (s, err (wrong_state st)))
      ≡ (elim st [
        | reserved ↦ (vacate (table s) ip, none)
        | offered ↦ (table s, some (wrong_state offered))
        | bound ↦ (table s, some (wrong_state bound))
        | expired ↦ (table s, some (wrong_state expired))
        | declined ↦ (table s, some (wrong_state declined))
      ])
unfolding is_reserved error_of
unreserve_found s ip r reserved v e = ap (λ t. (t, none)) (table-give_back s ip r v e)
unreserve_found s ip r offered v e = refl
unreserve_found s ip r bound v e = refl
unreserve_found s ip r expired v e = refl
unreserve_found s ip r declined v e = refl

pub unreserve-table :
    (s : Store) (ip : Ip)
    → IsValid s
    → outcome (unreserve s ip) ≡ unreserve_table (table s) ip (get s ip)
unfolding error_of
unreserve-table s ip v = elim (Option-cases (lookup ip s.by_ip)) [
  | inl e ↦
      by_lease (unreserve_table (table s) ip) (unreserve s ip) (s, err not_reserved)
        (get-none s ip e) (unfold unreserve in ground (arith, e)) refl
  | inr (r, e) ↦
      by_lease (unreserve_table (table s) ip) (unreserve s ip)
        (if is_reserved (s.heap r).state
          then (give_back s ip r ip, ok tt)
          else (s, err (wrong_state (s.heap r).state)))
        (get-some s ip r e) (unfold unreserve in ground (arith, e))
        (unreserve_found s ip r (s.heap r).state v e)
]

renew_held-table :
    (s : Store) (ip : Ip) (r now : ℕ) (st : State)
    → IsValid s
    → lookup ip s.by_ip ≡ some r
    → outcome (renew_held st s r now) ≡ (elim st [
      | reserved ↦ (table s, some (wrong_state reserved))
      | offered ↦ renewed (table s) ip now (s.heap r)
      | bound ↦ renewed (table s) ip now (s.heap r)
      | expired ↦ (table s, some (wrong_state expired))
      | declined ↦ (table s, some (wrong_state declined))
    ])
unfolding renew_held error_of
renew_held-table s ip r now reserved v e = refl
renew_held-table s ip r now offered v e = ap (λ t. (t, none)) (table-write s ip r _ v e refl)
renew_held-table s ip r now bound v e = ap (λ t. (t, none)) (table-write s ip r _ v e refl)
renew_held-table s ip r now expired v e = refl
renew_held-table s ip r now declined v e = refl

pub renew-table :
    (s : Store) (c : List ℕ) (ip : Ip) (now : ℕ)
    → IsValid s
    → outcome (renew s c ip now) ≡ renew_table (table s) c ip now (get s ip)
unfolding error_of
renew-table s c ip now v = elim (Option-cases (lookup ip s.by_ip)) [
  | inl e ↦
      by_lease (renew_table (table s) c ip now) (renew s c ip now) (s, err not_found)
        (get-none s ip e) (unfold renew in ground (arith, e)) refl
  | inr (r, e) ↦
      by_lease (renew_table (table s) c ip now) (renew s c ip now)
        (ite ((s.heap r).client_id =? c) (renew_held (s.heap r).state s r now)
          (s, err client_mismatch))
        (get-some s ip r e) (unfold renew in ground (arith, e))
        (outcome-ite (renew_held (s.heap r).state s r now) (s, err client_mismatch)
          ((s.heap r).client_id =? c) (renew_held-table s ip r now (s.heap r).state v e) refl)
]

allocate_held-table :
    (s : Store) (c : List ℕ) (ip : Ip) (r now : ℕ) (st : State)
    → IsValid s
    → lookup ip s.by_ip ≡ some r
    → outcome (allocate_held st s c r now) ≡ (elim st [
      | reserved ↦
          ite
            ((s.heap r).client_id =? c)
            (claim_table (table s) c ip (as_offer (table s) now (s.heap r)), none)
            (table s, some already_reserved)
      | offered ↦
          ite
            ((s.heap r).client_id =? c)
            (
              record (table s) {
                lease = with_lease (table s) ip (some (offered_again (table s) now (s.heap r)));
              },
              none,
            )
            (table s, some ip_unavailable)
      | bound ↦ (table s, some ip_unavailable)
      | expired ↦ (table s, some ip_unavailable)
      | declined ↦ (table s, some ip_unavailable)
    ])
unfolding allocate_held error_of offer
allocate_held-table s c ip r now reserved v e =
    let l = as_offer (table s) now (s.heap r) in
    let s' = record s { heap = write s.heap r l } in
    let there = table-write s ip r l v e refl in
    let claimed =
      table-claim s' c ip r l (rewrite-IsValid s r l refl refl v) e
        (get-write s ip ip r l v e ∙ if_pos (ip =? ip) refl _ _) in
    outcome-ite (claim s' c r, ok ((claim s' c r).heap r)) (s, err already_reserved)
      ((s.heap r).client_id =? c)
      (ap (λ t. (t, none))
        (claimed
          ∙ ap (λ t. claim_table t c ip l) there
          ∙ claim_overwrites (table s) c ip l (some l)))
      refl
allocate_held-table s c ip r now offered v e =
    let l = offered_again (table s) now (s.heap r) in
    outcome-ite (record s { heap = write s.heap r l }, ok l) (s, err ip_unavailable)
      ((s.heap r).client_id =? c) (ap (λ t. (t, none)) (table-write s ip r l v e refl)) refl
allocate_held-table s c ip r now bound v e = refl
allocate_held-table s c ip r now expired v e = refl
allocate_held-table s c ip r now declined v e = refl

pub allocate-table :
    (s : Store) (c : List ℕ) (ip : Ip) (now : ℕ)
    → IsValid s
    → outcome (allocate s c ip now) ≡ allocate_table (table s) c ip now (get s ip)
unfolding error_of
allocate-table s c ip now v = elim (Option-cases (lookup ip s.by_ip)) [
  | inl e ↦
      let s' = allocate_new s c ip now in
      by_lease (allocate_table (table s) c ip now) (allocate s c ip now) (s', ok (s'.heap s.fresh))
        (get-none s ip e) (unfold allocate in ground (arith, e))
        (ap (λ t. (t, none)) (table-allocate_new s c ip now v e))
  | inr (r, e) ↦
      by_lease (allocate_table (table s) c ip now) (allocate s c ip now)
        (allocate_held (s.heap r).state s c r now) (get-some s ip r e)
        (unfold allocate in ground (arith, e))
        (allocate_held-table s c ip r now (s.heap r).state v e)
]

-- NextAvailable turns the pool, which the table does not see.
pub next_available-table : (s : Store) → table (next_available s).0 ≡ table s
unfolding next_available get get_by_client
next_available-table s =
    same_table _ _ refl refl refl ((λ k. refl), (λ c. refl), (λ k. count-rotate k s.available))
