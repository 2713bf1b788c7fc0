-- ===== src/Store/Table/Refinement.antt =====
-- A store's history is the history of its table.
use mydhcp.Common.{
  ℕ, ◌≡◌, refl, ap, ◌∙◌, List, [], ◌∷◌, Option, some, none, arith, text_eq, nat_eq, Option-cases,
  inl, inr, Bool, sym, count, ◌≤◌,
}
use mydhcp.Common.Maps.{lookup, keys}
use mydhcp.Lease.{Lease}
use mydhcp.Net.{Ip, ip_eq}
use mydhcp.Store.Defs.{Store, Error, circulating, leased}
use mydhcp.Store.Ops.{get, next_available, first}
use mydhcp.Store.Sweep.{visit, sweep, expire, cool_down, is_expired, is_cooled}
use mydhcp.Store.Invariant.{IsValid}
use mydhcp.Store.Invariant.Steps.{step-IsValid}
use mydhcp.Store.Calls.{
  Call, reserves, releases, unreserves, allocates, renews, declines, takes_next, expires, cools,
  step, run, failure,
}
use mydhcp.Store.Conservation.{circulating-sweep}
use mydhcp.Store.Sweeps.{get-sweep_all, listed}
use mydhcp.Store.Table.{table, sweep_table, call_table, calls_table}
use mydhcp.Store.Table.Owners.{owner, owner-sweep}
use mydhcp.Store.Table.Moves.{same_table}
use mydhcp.Store.Table.Calls.{
  reserve-table, release-table, unreserve-table, decline-table, renew-table, allocate-table,
  next_available-table,
}

-- A sweep leaves the store's three times.
abbrev SameTimes : Store → Store → Type 0
SameTimes s s' =
    (s'.lease_time ≡ s.lease_time) × (s'.offer_ttl ≡ s.offer_ttl) × (s'.decline_ttl ≡ s.decline_ttl)

visit-SameTimes : (due : Lease → Bool) (s : Store) (ip : Ip) → SameTimes s (visit due s ip).0
unfolding visit
visit-SameTimes due s ip = (ground arith, ground arith, ground arith)

sweep-SameTimes : (due : Lease → Bool) (ips : List Ip) (s : Store) → SameTimes s (sweep due ips s).0
unfolding sweep
sweep-SameTimes due [] s = (refl, refl, refl)
sweep-SameTimes due (ip ∷ ips) s =
    let (a, b, c) = sweep-SameTimes due ips (visit due s ip).0 in
    let (a', b', c') = visit-SameTimes due s ip in (a ∙ a', b ∙ b', c ∙ c')

-- An address is leased once if it has a lease.
leased-get : (s : Store) (k : Ip) → leased k s.by_ip ≡ elim (get s k) [ none ↦ 0 | some l ↦ 1 ]
unfolding leased get
leased-get s k = ground arith

pool-sweep :
    (due : Lease → Bool) (s : Store) (k : Ip)
    → IsValid s
    → (table (sweep due (keys s.by_ip) s).0).pool k ≡ (sweep_table (table s) due).pool k
unfolding circulating
pool-sweep due s k v =
    let s' = (sweep due (keys s.by_ip) s).0 in
    let same = circulating-sweep due (keys s.by_ip) s k v in
    let left = get-sweep_all due s k v in
    elim (Option-cases (get s k)) [
      | inl e ↦ ground (arith, e, same, left, leased-get s k, leased-get s' k)
      | inr (l, e) ↦ ground (arith, e, same, left, leased-get s k, leased-get s' k)
    ]

owner-sweep_all :
    (due : Lease → Bool) (s : Store) (d : List ℕ)
    → IsValid s
    → owner (sweep due (keys s.by_ip) s).0 d ≡ (sweep_table (table s) due).owner d
owner-sweep_all due s d v = elim (Option-cases (owner s d)) [
  | inl o ↦ ground (arith, o, owner-sweep due (keys s.by_ip) s d v)
  | inr (j, o) ↦ elim (Option-cases (lookup j s.by_ip)) [
    | inl e ↦ unfold get in ground (arith, o, e, owner-sweep due (keys s.by_ip) s d v)
    | inr (r, e) ↦ ground (arith, o, owner-sweep due (keys s.by_ip) s d v, listed j s.by_ip r e)
  ]
]

sweep-table :
    (due : Lease → Bool) (s : Store)
    → IsValid s
    → table (sweep due (keys s.by_ip) s).0 ≡ sweep_table (table s) due
sweep-table due s v =
    let (a, b, c) = sweep-SameTimes due (keys s.by_ip) s in
    same_table _ _ a b c (
      (λ k. elim (Option-cases (get s k)) [
        | inl e ↦ ground (arith, e, get-sweep_all due s k v)
        | inr (l, e) ↦ ground (arith, e, get-sweep_all due s k v)
      ]),
      (λ d. owner-sweep_all due s d v),
      (λ k. pool-sweep due s k v),
    )

-- A call of the store is the call on its table.
pub step-table :
    (s : Store) (c : Call) → IsValid s → (table (step s c), failure s c) ≡ call_table (table s) c
unfolding step failure expire cool_down
step-table s (reserves c ip) v = reserve-table s c ip v
step-table s (releases c ip) v = release-table s c ip v
step-table s (unreserves ip) v = unreserve-table s ip v
step-table s (allocates c ip now) v = allocate-table s c ip now v
step-table s (renews c ip now) v = renew-table s c ip now v
step-table s (declines ip now) v = decline-table s ip now v
step-table s takes_next v = ap (λ t. (t, none)) (next_available-table s)
step-table s (expires now) v = ap (λ t. (t, none)) (sweep-table (is_expired now) s v)
step-table s (cools now) v = ap (λ t. (t, none)) (sweep-table (is_cooled s.decline_ttl now) s v)

-- The errors that the calls return in turn.
abbrev pub failures : Store → List Call → List (Option Error)
failures s [] = []
failures s (c ∷ cs) = failure s c ∷ failures (step s c) cs

-- On a well-formed store any list of calls leaves the leases by address, the current address of
-- each client and how often each address is in the pool as the abstract table of these prescribes,
-- and returns the errors, call by call, that the table prescribes: what the pointers, the maps and
-- the order of the pool add is not seen.
pub run-calls_table :
    (s : Store) (cs : List Call)
    → IsValid s
    → (table (run s cs), failures s cs) ≡ calls_table (table s) cs
unfolding run
run-calls_table s [] v = refl
run-calls_table s (c ∷ cs) v =
    ap (λ out. (out.0, failure s c ∷ out.1)) (run-calls_table (step s c) cs (step-IsValid s c v))
    ∙ ap (λ one. let later = calls_table one.0 cs in (later.0, one.1 ∷ later.1)) (step-table s c v)

-- NextAvailable answers with an address of the pool, or finds the pool empty.
abbrev pub AnswersFrom : (Ip → ℕ) → Option Ip → Type 0
AnswersFrom pool none = (k : Ip) → pool k ≡ 0
AnswersFrom pool (some ip) = 1 ≤ pool ip

first-AnswersFrom : (ips : List Ip) → AnswersFrom (λ k. count k ips) (first ips)
unfolding first count
first-AnswersFrom [] = λ k. refl
first-AnswersFrom (ip ∷ ips) = ground arith

pub next_available-AnswersFrom : (s : Store) → AnswersFrom (table s).pool (next_available s).1
unfolding next_available
next_available-AnswersFrom s = first-AnswersFrom s.available

-- Two well-formed stores that have the same leases by address, current addresses of the clients,
-- addresses in the pool and times return the same errors to any list of calls, and have the same
-- leases, current addresses and pool behind it, however their maps and pools are ordered and their
-- leases are stored.
pub same_failures :
    (s s' : Store) (cs : List Call)
    → IsValid s
    → IsValid s'
    → table s ≡ table s'
    → (failures s cs ≡ failures s' cs) × (table (run s cs) ≡ table (run s' cs))
same_failures s s' cs v v' same =
    let both =
      run-calls_table s cs v ∙ ap (λ t. calls_table t cs) same ∙ sym (run-calls_table s' cs v') in
    (ap (λ out. out.1) both, ap (λ out. out.0) both)
