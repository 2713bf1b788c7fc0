-- ===== src/Net.antt =====
-- What the program uses of Go's package net: IPv4 addresses and networks. A net.IP of four bytes
-- is an `Ip`, the nil slice is `none`.
pub mod Cidr
use mydhcp.Common.{ℕ, ◌+◌, ◌*◌, ◌/◌, ◌%◌, ◌<◌, ◌≡◌, arith, Eq, ℕ_discrete}

pub record Ip : Type 0 where
  pub b0 : ℕ
  pub b1 : ℕ
  pub b2 : ℕ
  pub b3 : ℕ

unfoldable pub Ip-discrete : Discrete Ip
unfolding ℕ_discrete
Ip-discrete = hlevel ℕ_discrete

instance abbrev pub ip_eq : Eq Ip
ip_eq = record { decide = Ip-discrete }

-- Every field is a byte.
pub record IsIp (a : Ip) : Type 0 where
  pub byte0 : a.b0 < 256
  pub byte1 : a.b1 < 256
  pub byte2 : a.b2 < 256
  pub byte3 : a.b3 < 256

-- store.ipToUint32 and store.uint32ToIP: the shifts and the `|` of disjoint bytes as a sum.
unfoldable pub ip_to_uint32 : Ip → ℕ
ip_to_uint32 a = a.b0 * 16777216 + a.b1 * 65536 + a.b2 * 256 + a.b3

unfoldable pub uint32_to_ip : ℕ → Ip
uint32_to_ip v = record {
  b0 = v / 16777216 % 256;
  b1 = v / 65536 % 256;
  b2 = v / 256 % 256;
  b3 = v % 256;
}

pub ip_to_uint32-lt : (a : Ip) → IsIp a → ip_to_uint32 a < 4294967296
unfolding ip_to_uint32
ip_to_uint32-lt a h = omega arith

pub ip_to_uint32-uint32_to_ip : (v : ℕ) → v < 4294967296 → ip_to_uint32 (uint32_to_ip v) ≡ v
unfolding ip_to_uint32 uint32_to_ip
ip_to_uint32-uint32_to_ip v h = omega arith

-- An IPv4 address of four bytes is recovered from its 32-bit number.
pub uint32_to_ip-ip_to_uint32 : (a : Ip) → IsIp a → uint32_to_ip (ip_to_uint32 a) ≡ a
unfolding ip_to_uint32 uint32_to_ip
uint32_to_ip-ip_to_uint32 a h = ground arith
