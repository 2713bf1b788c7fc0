-- ===== src/Relay/Forwarding.antt =====
-- The relay and the codec: what the relay does to the bytes is what it means for the packet.
use mydhcp.Common.{
  ℕ, ◌+◌, ◌%◌, ◌≤◌, ◌≡◌, ◌∙◌, refl, sym, ap, List, [], ◌∷◌, ◌++◌, Option, some, true, false, arith,
  if◌then◌else◌, length, take, drop, ◌=?◌, if_pos, if_neg, Bool-cases, inl, inr,
}
use mydhcp.Net.{Ip, ip_eq, uint32_to_ip}
use mydhcp.Subnet.{is_unspecified}
use mydhcp.Dhcp.Packet.{Packet, at, serialize}
use mydhcp.Dhcp.Packet.Layout.{or_zero, layout, padded, serialize-layout}
use mydhcp.Dhcp.Packet.RoundTrip.{IsPacket, long_enough}
use mydhcp.Dhcp.Options.{serialize_options}
use mydhcp.Relay.{is_zero, overwrite, set_giaddr, count_hop, forward_to_server}

all_zero :
    (b0 b1 b2 b3 : ℕ)
    → is_zero (b0 ∷ b1 ∷ b2 ∷ b3 ∷ []) ≡ true
    → record { b0 = b0; b1 = b1; b2 = b2; b3 = b3 } ≡ uint32_to_ip 0
unfolding is_zero uint32_to_ip
all_zero b0 b1 b2 b3 h =
    let h0 : b0 ≡ 0 = ground arith in
    let h1 : b1 ≡ 0 = ground arith in
    let h2 : b2 ≡ 0 = ground arith in
    let h3 : b3 ≡ 0 = ground arith in λ i. record { b0 = h0 i; b1 = h1 i; b2 = h2 i; b3 = h3 i }

zero_bytes : (a : Ip) → a ≡ uint32_to_ip 0 → is_zero (a.b0 ∷ a.b1 ∷ a.b2 ∷ a.b3 ∷ []) ≡ true
unfolding is_zero uint32_to_ip
zero_bytes a e =
    let h0 : a.b0 ≡ 0 = ap (λ (x : Ip). x.b0) e in
    let h1 : a.b1 ≡ 0 = ap (λ (x : Ip). x.b1) e in
    let h2 : a.b2 ≡ 0 = ap (λ (x : Ip). x.b2) e in
    let h3 : a.b3 ≡ 0 = ap (λ (x : Ip). x.b3) e in ground (arith, h0, h1, h2, h3)

pub is_zero-is_unspecified : (a : Ip) → is_zero (a.b0 ∷ a.b1 ∷ a.b2 ∷ a.b3 ∷ []) ≡ is_unspecified a
unfolding is_unspecified
is_zero-is_unspecified a = elim (a =? uint32_to_ip 0) [
  | yes e ↦ zero_bytes a e ∙ sym (if_pos _ e true false)
  | no e ↦ elim (Bool-cases (is_zero (a.b0 ∷ a.b1 ∷ a.b2 ∷ a.b3 ∷ []))) [
    | inl z ↦ absurd (e (all_zero a.b0 a.b1 a.b2 a.b3 z))
    | inr nz ↦ nz ∙ sym (if_neg _ e true false)
  ]
]

-- The packet as it goes on: one hop more, and the interface's address where no relay is named.
abbrev pub relayed_by : Ip → Packet → Packet
relayed_by agent p = record p {
  hops = (p.hops + 1) % 256;
  giaddr = some (if is_unspecified (or_zero p.giaddr) then agent else or_zero p.giaddr);
}

forward_long :
    (agent : Option Ip) (pkt : List ℕ)
    → 236 ≤ length pkt
    → at pkt 0 ≡ 1
    → forward_to_server agent pkt ≡ some (count_hop (set_giaddr agent pkt))
unfolding forward_to_server
forward_long agent pkt long request = ground (arith, long, request)

set_giaddr_unnamed :
    (a : Ip) (pkt : List ℕ)
    → is_zero (take 4 (drop 24 pkt)) ≡ true
    → set_giaddr (some a) pkt ≡ overwrite 24 (a.b0 ∷ a.b1 ∷ a.b2 ∷ a.b3 ∷ []) pkt
unfolding set_giaddr
set_giaddr_unnamed a pkt h = ground (arith, h)

set_giaddr_named :
    (a : Ip) (pkt : List ℕ) → is_zero (take 4 (drop 24 pkt)) ≡ false → set_giaddr (some a) pkt ≡ pkt
unfolding set_giaddr
set_giaddr_named a pkt h = ground (arith, h)

forward-layout :
    (agent : Ip) (p : Packet) (rest : List ℕ)
    → at (layout p rest) 0 ≡ 1
    → 236 ≤ length (layout p rest)
    → forward_to_server (some agent) (layout p rest) ≡ some (layout (relayed_by agent p) rest)
unfolding overwrite count_hop at
forward-layout agent p rest request long =
    let start = forward_long (some agent) (layout p rest) long request in
    let same = is_zero-is_unspecified (or_zero p.giaddr) in
    elim (Bool-cases (is_unspecified (or_zero p.giaddr))) [
      | inl unnamed ↦
          start
          ∙ ap (λ pkt. some (count_hop pkt))
              (set_giaddr_unnamed agent (layout p rest) (same ∙ unnamed))
          ∙ rw unnamed refl
      | inr named ↦
          start
          ∙ ap (λ pkt. some (count_hop pkt)) (set_giaddr_named agent (layout p rest) (same ∙ named))
          ∙ rw named refl
    ]

-- What the relay writes for the bytes of a request whose fields fit the wire are the bytes of the
-- same packet with one hop more, modulo 256, and with the interface's address where the packet
-- names no relay.
pub forward_to_server-serialize :
    (agent : Ip) (p : Packet)
    → IsPacket p
    → p.op ≡ 1
    → forward_to_server (some agent) (serialize p) ≡ some (serialize (relayed_by agent p))
unfolding at
forward_to_server-serialize agent p w request =
    let rest = padded p ++ serialize_options p.options in
    ap (forward_to_server (some agent)) (serialize-layout p)
    ∙ forward-layout agent p rest request (omega (arith, long_enough p w))
    ∙ ap some (sym (serialize-layout (relayed_by agent p)))
