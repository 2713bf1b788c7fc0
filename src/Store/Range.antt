-- ===== src/Store/Range.antt =====
-- The pool that the constructor of store.MemoryStore fills.
use mydhcp.Common.{
  ℕ, zero, suc, ◌+◌, ◌-◌, ◌%◌, ◌≤◌, ◌<◌, ◌≡◌, refl, ap, sym, subst, ◌∙◌, nat_eq, List, [], ◌∷◌,
  some, none, ite, ◌=?◌, arith, count, leb, ◌&&◌, if◌then◌else◌, Bool-cases, Option-cases, inl, inr,
}
use mydhcp.Net.{
  Ip, IsIp, ip_eq, ip_to_uint32, uint32_to_ip, ip_to_uint32-uint32_to_ip, ip_to_uint32-lt,
  uint32_to_ip-ip_to_uint32,
}
use mydhcp.Store.Sweep.{fill}

-- 1 for an address from `first` to `last`, and 0 outside.
unfoldable pub in_range : ℕ → ℕ → Ip → ℕ
in_range first last k = if leb first (ip_to_uint32 k) && leb (ip_to_uint32 k) last then 1 else 0

head-le :
    (cur last : ℕ) (k : Ip)
    → cur ≤ last
    → cur < 4294967296
    → ite (uint32_to_ip cur =? k) 1 0 + in_range (cur + 1) last k ≤ in_range cur last k
unfolding in_range
head-le cur last k h small = elim (uint32_to_ip cur =? k) [
  | yes e ↦ ground (arith, ap ip_to_uint32 e, ip_to_uint32-uint32_to_ip cur small)
  | no e ↦ ground arith
]

head-ge :
    (cur last : ℕ) (k : Ip)
    → IsIp k
    → in_range cur last k ≤ ite (uint32_to_ip cur =? k) 1 0 + in_range (cur + 1) last k
unfolding in_range
head-ge cur last k h = elim (uint32_to_ip cur =? k) [
  | yes e ↦ ground arith
  | no e ↦ elim (ip_to_uint32 k =? cur) [
    | yes e' ↦ absurd (e (ap uint32_to_ip (sym e') ∙ uint32_to_ip-ip_to_uint32 k h))
    | no e' ↦ ground arith
  ]
]

-- The addresses of a pool are those of a range, each once.
pub record Fills (first last : ℕ) (ips : List Ip) : Type 0 where
  pub at_most : (k : Ip) → count k ips ≤ in_range first last k
  pub at_least : (k : Ip) → IsIp k → in_range first last k ≤ count k ips

empty-Fills : (cur last : ℕ) → last < cur → Fills cur last []
unfolding in_range count
empty-Fills cur last h = record { at_most = λ k. omega arith; at_least = λ k w. ground arith }

cons-Fills :
    (cur last : ℕ) (ips : List Ip)
    → cur ≤ last
    → cur < 4294967296
    → Fills (cur + 1) last ips
    → Fills cur last (uint32_to_ip cur ∷ ips)
unfolding count
cons-Fills cur last ips h small f = record {
  at_most = λ k. omega (arith, head-le cur last k h small, f.at_most k);
  at_least = λ k w. omega (arith, head-ge cur last k w, f.at_least k w);
}

-- With an end below 255.255.255.255 and more fuel than the range has addresses, the filling of a
-- pool ends, and the pool has each address of the range once and no other.
pub fill-Fills :
    (fuel cur last : ℕ)
    → last < 4294967295
    → last + 1 - cur < fuel
    → (ips : List Ip) × (fill fuel cur last ≡ some ips) × Fills cur last ips
unfolding fill
fill-Fills zero cur last small enough = absurd (omega arith)
fill-Fills (suc fuel) cur last small enough = elim (Bool-cases (leb cur last)) [
  | inl more ↦
      let next : (cur + 1) % 4294967296 ≡ cur + 1 = ground arith in
      let (ips, filled, f) = fill-Fills fuel (cur + 1) last small (ground arith) in
      (
        uint32_to_ip cur ∷ ips,
        rw (more, next, filled),
        cons-Fills cur last ips (ground arith) (ground arith) f,
      )
  | inr done ↦ ([], rw done, empty-Fills cur last (ground arith))
]

-- Whatever the fuel, a loop that ends fills the pool with the range.
filled-Fills :
    (fuel cur last : ℕ) (ips : List Ip)
    → last < 4294967295
    → fill fuel cur last ≡ some ips
    → Fills cur last ips
unfolding fill
filled-Fills zero cur last ips small h = absurd (ground arith)
filled-Fills (suc fuel) cur last ips small h = elim (Bool-cases (leb cur last)) [
  | inr done ↦
      let same : [] ≡ ips = ground (arith, done) in
      subst (Fills cur last) same (empty-Fills cur last (ground arith))
  | inl more ↦
      let next : (cur + 1) % 4294967296 ≡ cur + 1 = ground arith in
      elim (Option-cases (fill fuel (cur + 1) last)) [
        | inl e ↦ absurd (ground (arith, more, next, e))
        | inr (rest, e) ↦
            let same : uint32_to_ip cur ∷ rest ≡ ips = ground (arith, more, next, e) in
            subst (Fills cur last) same (
              cons-Fills cur last rest (ground arith) (ground arith)
                (filled-Fills fuel (cur + 1) last rest small e))
      ]
]

-- With 255.255.255.255 as the end no amount of fuel lets the filling of the pool end.
pub fill_diverges : (fuel cur : ℕ) → cur < 4294967296 → fill fuel cur 4294967295 ≡ none
unfolding fill
fill_diverges zero cur h = refl
fill_diverges (suc fuel) cur h =
    ground (arith, fill_diverges fuel ((cur + 1) % 4294967296) (omega arith))

-- Of the ends that an address can be, only those below 255.255.255.255 let the loop end.
pub fill_outcome :
    (fuel : ℕ) (start end : Ip) (ips : List Ip)
    → IsIp start
    → IsIp end
    → fill fuel (ip_to_uint32 start) (ip_to_uint32 end) ≡ some ips
    → Fills (ip_to_uint32 start) (ip_to_uint32 end) ips
fill_outcome fuel start end ips w v h = elim (ip_to_uint32 end =? 4294967295) [
  | yes last ↦
      absurd
        (ground (arith, h, last, fill_diverges fuel (ip_to_uint32 start) (ip_to_uint32-lt start w)))
  | no below ↦
      filled-Fills fuel (ip_to_uint32 start) (ip_to_uint32 end) ips
        (ground (arith, below, ip_to_uint32-lt end v)) h
]
