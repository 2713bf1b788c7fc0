-- ===== src/Net/Cidr.antt =====
-- net.IPNet as net.ParseCIDR returns it for IPv4: an address and a mask of leading ones.
use Prim.Native.Nat.{bit_or}
use native.Mathlib.Nat.{div-div-eq-div-mul, pow-suc}
use mydhcp.Common.{
  ℕ, zero, suc, ◌+◌, ◌-◌, ◌*◌, ◌/◌, ◌^◌, ◌≤◌, ◌≡◌, sym, Bool, true, false, ◌||◌, arith, ◌==◌, leb,
  Option, some, none, Bool-cases, inl, inr,
}
use mydhcp.Net.{Ip, ip_to_uint32, uint32_to_ip}

pub record IpNet : Type 0 where
  pub ip : Ip
  pub ones : ℕ

-- The mask's four bytes: as many leading ones as the prefix is long.
unfoldable pub mask : IpNet → Ip
mask n = uint32_to_ip (4294967296 - 2 ^ (32 - n.ones))

-- The part of an address that the mask keeps.
unfoldable pub prefix : ℕ → Ip → ℕ
prefix ones a = ip_to_uint32 a / 2 ^ (32 - ones)

-- IPNet.Contains: the address and the network agree where the mask has ones.
unfoldable pub contains : IpNet → Ip → Bool
contains n a = prefix n.ones n.ip == prefix n.ones a

-- The same of a net.IP that may be nil or no IPv4 address.
unfoldable pub contains? : IpNet → Option Ip → Bool
unfolding contains
contains? n none = false
contains? n (some a) = contains n a

two_pow-add : (a b : ℕ) → 2 ^ (a + b) ≡ 2 ^ a * 2 ^ b
two_pow-add a zero = grind arith
two_pow-add a (suc b) =
    let e : a + suc b ≡ suc (a + b) = omega arith in
    rw (e, pow-suc 2 (a + b), pow-suc 2 b, two_pow-add a b) (omega arith)

prefix_split : (m n : ℕ) (a : Ip) → m ≤ n → n ≤ 32 → prefix m a ≡ prefix n a / 2 ^ (n - m)
unfolding prefix
prefix_split m n a h k =
    let e : 32 - m ≡ 32 - n + (n - m) = omega arith in
    rw (e, two_pow-add (32 - n) (n - m)) (sym (div-div-eq-div-mul _ _ _))

-- A longer prefix decides a shorter one.
prefix_shorter :
    (m n : ℕ) (a b : Ip) → m ≤ n → n ≤ 32 → prefix n a ≡ prefix n b → prefix m a ≡ prefix m b
prefix_shorter m n a b h k e = rw (prefix_split m n a h k, prefix_split m n b h k, e)

-- Two networks that share an address overlap: one of them contains the other's own address.
pub contains_both :
    (m n : IpNet) (a : Ip)
    → m.ones ≤ 32
    → n.ones ≤ 32
    → contains m a ≡ true
    → contains n a ≡ true
    → contains m n.ip || contains n m.ip ≡ true
unfolding contains
contains_both m n a hm hn in_m in_n = elim (Bool-cases (leb m.ones n.ones)) [
  | inl le ↦ ground (arith, prefix_shorter m.ones n.ones n.ip a)
  | inr gt ↦ ground (arith, prefix_shorter n.ones m.ones m.ip a)
]

-- BroadcastAddr of internal/subnet/manager.go: `ip[i] | ^mask[i]`.
unfoldable pub broadcast_addr : IpNet → Ip
unfolding mask
broadcast_addr n = record {
  b0 = bit_or n.ip.b0 (255 - (mask n).b0);
  b1 = bit_or n.ip.b1 (255 - (mask n).b1);
  b2 = bit_or n.ip.b2 (255 - (mask n).b2);
  b3 = bit_or n.ip.b3 (255 - (mask n).b3);
}
