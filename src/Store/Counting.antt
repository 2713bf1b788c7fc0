-- ===== src/Store/Counting.antt =====
-- What the counts of leases say of the leases.
use mydhcp.Common.{
  ℕ, ◌+◌, ◌≡◌, refl, List, [], ◌∷◌, some, false, arith, Option-cases, inl, inr, map, nat_eq,
  if◌then◌else◌,
}
use mydhcp.Common.Maps.{Map, lookup, values}
use mydhcp.Lease.{Lease, State, reserved, offered, bound, expired, declined, occupies}
use mydhcp.Net.{Ip, ip_eq}
use mydhcp.Store.Defs.{Store}
use mydhcp.Store.Ops.{get, is_reserved}
use mydhcp.Store.Sweep.{leases, count_if, occupied_count, is_offered, is_bound, occupied_by_state}

one_of_three :
    (st : State)
    → (if occupies st then 1 else 0)
      ≡ (if is_reserved st then 1 else 0)
        + (if is_offered st then 1 else 0)
        + (if is_bound st then 1 else 0)
unfolding occupies is_reserved is_offered is_bound
one_of_three reserved = refl
one_of_three offered = refl
one_of_three bound = refl
one_of_three expired = refl
one_of_three declined = refl

count_three :
    (ls : List Lease)
    → count_if occupies ls ≡ count_if is_reserved ls + count_if is_offered ls + count_if is_bound ls
unfolding count_if
count_three [] = refl
count_three (l ∷ ls) = omega (arith, one_of_three l.state, count_three ls)

-- OccupiedCount is the sum of the three counts of OccupiedByState.
pub occupied_count-occupied_by_state :
    (s : Store)
    → occupied_count s ≡ (occupied_by_state s).0 + (occupied_by_state s).1 + (occupied_by_state s).2
unfolding occupied_count occupied_by_state
occupied_count-occupied_by_state s = count_three (leases s)

none_counted :
    (heap : ℕ → Lease) (m : Map Ip ℕ) (k : Ip) (r : ℕ)
    → count_if occupies (map heap (values m)) ≡ 0
    → lookup k m ≡ some r
    → occupies (heap r).state ≡ false
unfolding count_if lookup values
none_counted heap [] k r h found = absurd (ground arith)
none_counted heap ((j, q) ∷ m) k r h found = ground (arith, none_counted heap m k r)

-- Where the count is 0, no lease holds its address.
pub unoccupied :
    (s : Store) (k : Ip) (l : Lease)
    → occupied_count s ≡ 0
    → get s k ≡ some l
    → occupies l.state ≡ false
unfolding get occupied_count leases
unoccupied s k l h held = elim (Option-cases (lookup k s.by_ip)) [
  | inl e ↦ absurd (ground (arith, e))
  | inr (r, e) ↦ ground (arith, e, none_counted s.heap s.by_ip k r h e)
]
