-- ===== src/Store/Table/Cycle.antt =====
-- A new client that is offered the pool's next address, binds it and gives it back.
use mydhcp.Common.{
  ℕ, ◌≡◌, refl, ap, ◌∙◌, List, [], ◌∷◌, some, none, ◌=?◌, arith, text_eq, nat_eq, Option-cases, inl,
  inr, if_pos,
}
use mydhcp.Common.Maps.{lookup}
use mydhcp.Lease.{Lease, new_lease, offered}
use mydhcp.Net.{Ip, ip_eq}
use mydhcp.Store.Defs.{Store, circulating, leased}
use mydhcp.Store.Ops.{get, get_by_client, first}
use mydhcp.Store.Pool.{count-first}
use mydhcp.Store.Invariant.{IsValid}
use mydhcp.Store.Calls.{Call, takes_next, allocates, renews, releases, run}
use mydhcp.Store.Table.{
  Table, table, vacate, renewed, renew_table, release_table, allocate_table, allocate_new_table,
  as_offer, calls_table,
}
use mydhcp.Store.Table.Moves.{same_table, owned_get}
use mydhcp.Store.Table.Refinement.{run-calls_table}

-- The calls that a DISCOVER, a REQUEST and a RELEASE of a new client come to.
abbrev pub cycle : List ℕ → Ip → ℕ → ℕ → List Call
cycle c ip now later = takes_next ∷ allocates c ip now ∷ renews c ip later ∷ releases c ip ∷ []

-- An address of the pool has no lease.
pub pooled-none : (s : Store) (ip : Ip) → IsValid s → first s.available ≡ some ip → get s ip ≡ none
unfolding get
pooled-none s ip v pool = elim (Option-cases (lookup ip s.by_ip)) [
  | inl e ↦ ground (arith, e)
  | inr (r, e) ↦ absurd (
      unfold circulating leased in
      ground (arith, e, v.exclusive ip, count-first ip s.available pool))
]

module _ (t : Table) (c : List ℕ) (ip : Ip) (now later : ℕ) where
  abbrev offer : Lease
  offer = as_offer t now (new_lease ip c offered)

  abbrev table1 : Table
  table1 = allocate_new_table t c ip now

  abbrev table2 : Table
  table2 = (renewed table1 ip later offer).0

  mine : offer.client_id ≡ c
  unfolding new_lease
  mine = refl

  renew_step : renew_table table1 c ip later (table1.lease ip) ≡ (table2, none)
  unfolding new_lease
  renew_step =
      ap (renew_table table1 c ip later) (if_pos (ip =? ip) refl _ _)
      ∙ if_pos (offer.client_id =? c) mine _ _

  release_step : release_table table2 c ip (table2.lease ip) ≡ (vacate table2 ip, none)
  unfolding new_lease
  release_step =
      ap (release_table table2 c ip) (if_pos (ip =? ip) refl _ _)
      ∙ if_pos (offer.client_id =? c) mine _ _

  cycle_steps : t.lease ip ≡ none → (calls_table t (cycle c ip now later)).0 ≡ vacate table2 ip
  cycle_steps free =
      ap
        (λ out.
          (release_table (renew_table out.0 c ip later (out.0.lease ip)).0 c ip
            ((renew_table out.0 c ip later (out.0.lease ip)).0.lease ip)).0)
        (ap (allocate_table t c ip now) free)
      ∙ ap (λ out. (release_table out.0 c ip (out.0.lease ip)).0) renew_step
      ∙ ap (λ out. out.0) release_step

-- The new client has no lease, and the address is the next of the pool.
module _ (s : Store) (c : List ℕ) (ip : Ip) (now later : ℕ) (v : IsValid s)
    (new : get_by_client s c ≡ none) (pool : first s.available ≡ some ip) where
  vacated : vacate (table2 (table s) c ip now later) ip ≡ table s
  vacated = same_table _ _ refl refl refl (
    (λ k. ground (arith, new, pooled-none s ip v pool)),
    (λ d. elim (Option-cases (get_by_client s d)) [
      | inl e ↦ ground (arith, e, new)
      | inr (l, e) ↦ ground (arith, e, new, owned_get s d l v e, pooled-none s ip v pool)
    ]),
    (λ k. ground (arith, count-first ip s.available pool)),
  )

  pub table-cycle : table (run s (cycle c ip now later)) ≡ table s
  table-cycle =
      ap (λ out. out.0) (run-calls_table s (cycle c ip now later) v)
      ∙ cycle_steps (table s) c ip now later (pooled-none s ip v pool)
      ∙ vacated
