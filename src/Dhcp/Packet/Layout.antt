-- ===== src/Dhcp/Packet/Layout.antt =====
-- internal/dhcp/packet.go, Serialize: the bytes of a serialised packet, field by field.
use mathlib.Core.List.{append_assoc}
use mydhcp.Common.{
  ℕ, ◌/◌, ◌%◌, ◌≡◌, refl, List, [], ◌∷◌, ◌++◌, Option, some, none, arith, length, replicate,
  length-append, length-take, length-replicate,
}
use mydhcp.Net.{Ip, uint32_to_ip}
use mydhcp.Dhcp.Options.{serialize_options, encode_ip}
use mydhcp.Dhcp.Packet.{Packet, field, serialize}

-- The address that the wire carries for a nil one.
abbrev pub or_zero : Option Ip → Ip
or_zero none = uint32_to_ip 0
or_zero (some a) = a

pub length-field : (n : ℕ) (src : List ℕ) → length (field n src) ≡ n
unfolding field
length-field n src = omega (
  arith,
  length-take n (src ++ replicate n 0),
  length-append src (replicate n 0),
  length-replicate {A = ℕ} n 0,
)

encode_ip-or_zero :
    (a : Option Ip)
    → encode_ip a ≡ (or_zero a).b0 ∷ (or_zero a).b1 ∷ (or_zero a).b2 ∷ (or_zero a).b3 ∷ []
unfolding encode_ip uint32_to_ip
encode_ip-or_zero none = refl
encode_ip-or_zero (some a) = refl

-- The bytes of the fields of fixed width behind the addresses.
abbrev pub padded : Packet → List ℕ
padded p = (field 16 p.chaddr ++ field 64 p.sname) ++ field 128 p.file

pub length-padded : (p : Packet) → length (padded p) ≡ 208
length-padded p = omega (
  arith,
  length-append (field 16 p.chaddr ++ field 64 p.sname) (field 128 p.file),
  length-append (field 16 p.chaddr) (field 64 p.sname),
  length-field 16 p.chaddr,
  length-field 64 p.sname,
  length-field 128 p.file,
)

-- The serialised packet, byte by byte up to the address of the client.
abbrev pub layout : Packet → List ℕ → List ℕ
layout p rest =
    let ci = or_zero p.ciaddr in
    let yi = or_zero p.yiaddr in
    let si = or_zero p.siaddr in
    let gi = or_zero p.giaddr in
    p.op
    ∷ p.htype
    ∷ p.hlen
    ∷ p.hops
    ∷ p.xid / 16777216 % 256
    ∷ p.xid / 65536 % 256
    ∷ p.xid / 256 % 256
    ∷ p.xid % 256
    ∷ p.secs / 256 % 256
    ∷ p.secs % 256
    ∷ p.flags / 256 % 256
    ∷ p.flags % 256
    ∷ ci.b0
    ∷ ci.b1
    ∷ ci.b2
    ∷ ci.b3
    ∷ yi.b0
    ∷ yi.b1
    ∷ yi.b2
    ∷ yi.b3
    ∷ si.b0
    ∷ si.b1
    ∷ si.b2
    ∷ si.b3
    ∷ gi.b0
    ∷ gi.b1
    ∷ gi.b2
    ∷ gi.b3
    ∷ rest

pub serialize-layout :
    (p : Packet) → serialize p ≡ layout p (padded p ++ serialize_options p.options)
unfolding serialize
serialize-layout p = rw (
  encode_ip-or_zero p.ciaddr,
  encode_ip-or_zero p.yiaddr,
  encode_ip-or_zero p.siaddr,
  encode_ip-or_zero p.giaddr,
  append_assoc (field 16 p.chaddr ++ field 64 p.sname) (field 128 p.file)
      (serialize_options p.options),
  append_assoc (field 16 p.chaddr) (field 64 p.sname),
)
