-- ===== src/Store/Pool.antt =====
-- What the parts of the operations do to the maps and to the pool.
use mydhcp.Common.{
  ℕ, ◌-◌, ◌≤◌, ◌≡◌, refl, List, [], ◌∷◌, some, none, ite, ◌=?◌, arith, count, count-append,
  count-one, text_eq, nat_eq,
}
use mydhcp.Common.Maps.{Map, lookup, insert, delete, lookup-insert, lookup-delete}
use mydhcp.Net.{Ip, ip_eq}
use mydhcp.Store.Defs.{remove_ip, leased}
use mydhcp.Store.Ops.{rotate, first, forget_client}

pub count-remove_ip :
    (k ip : Ip) (ips : List Ip) → count k (remove_ip ips ip) ≡ count k ips - ite (ip =? k) 1 0
unfolding count remove_ip
count-remove_ip k ip [] = ground arith
count-remove_ip k ip (v ∷ vs) = ground (arith, count-remove_ip k ip vs)

pub count-rotate : (k : Ip) (ips : List Ip) → count k (rotate ips) ≡ count k ips
unfolding count rotate
count-rotate k [] = refl
count-rotate k (v ∷ vs) = omega (arith, count-append k vs (v ∷ []), count-one k v)

pub leased-insert :
    (k ip : Ip) (r : ℕ) (m : Map Ip ℕ) → leased k (insert ip r m) ≡ ite (ip =? k) 1 (leased k m)
unfolding leased
leased-insert k ip r m = ground (arith, lookup-insert ip k r m)

pub leased-delete :
    (k ip : Ip) (m : Map Ip ℕ) → leased k (delete ip m) ≡ ite (ip =? k) 0 (leased k m)
unfolding leased
leased-delete k ip m = ground (arith, lookup-delete ip k m)

pub leased-some : (k : Ip) (r : ℕ) (m : Map Ip ℕ) → lookup k m ≡ some r → leased k m ≡ 1
unfolding leased
leased-some k r m h = ground arith

pub leased-none : (k : Ip) (m : Map Ip ℕ) → lookup k m ≡ none → leased k m ≡ 0
unfolding leased
leased-none k m h = ground arith

pub count-first : (ip : Ip) (ips : List Ip) → first ips ≡ some ip → 1 ≤ count ip ips
unfolding first count
count-first ip [] h = ground arith
count-first ip (v ∷ vs) h = ground arith

pub lookup-forget_client :
    (j c : List ℕ) (r : ℕ) (m : Map (List ℕ) ℕ)
    → lookup j (forget_client m c r)
      ≡ ite
          (c =? j)
          (elim (lookup c m) [ some q ↦ ite (q =? r) none (some q) | none ↦ none ])
          (lookup j m)
unfolding forget_client
lookup-forget_client j c r m = ground (arith, lookup-delete c j m)
