-- ===== src/Client/Packets.antt =====
-- The client's packets as the wire carries them, and what the server reads from them.
use mydhcp.Common.{
  ℕ, ◌<◌, ◌≡◌, refl, ap, List, [], ◌∷◌, Option, some, none, arith, length, if_pos, if_neg, ◌=?◌,
  text_eq, nat_eq, ℕ_discrete, Text-discrete,
}
use mydhcp.Common.Maps.{lookup, insert}
use mydhcp.Net.{Ip, ip_eq, Ip-discrete, uint32_to_ip}
use mydhcp.Subnet.{lookup_address, is_unspecified}
use mydhcp.Text.{hex}
use mydhcp.Ztp.Defs.{Ztp, get_device}
use mydhcp.Ztp.Ops.{lookup_for_packet}
use mydhcp.Dhcp.Options.{
  opt_msg_type, msg_discover, msg_request, msg_type, server_id, requested_ip, options_client_id,
  address_option, first_byte, encode_ip, to4,
}
use mydhcp.Dhcp.Packet.{Packet, client_id}
use mydhcp.Dhcp.Options.RoundTrip.{Encodable}
use mydhcp.Dhcp.Packet.RoundTrip.{IsPacket, on_wire}
use mydhcp.Dhcp.Handler.{wanted_ip, specified}
use mydhcp.Dhcp.Server.{lookup_ztp, broadcast_ip, destination}
use mydhcp.Client.{client_packet, put_vendor, put_requested, build_discover, build_request}
use mydhcp.Client.Exchange.{AreMessages}

-- The type of a DISCOVER, whatever the client asks for.
msg_type-build_discover :
    (mac : List ℕ) (xid : ℕ) (req_ip : Option Ip) (vendor : List ℕ)
    → msg_type (build_discover mac xid req_ip vendor).options ≡ some msg_discover
unfolding build_discover msg_type put_requested put_vendor client_packet lookup insert first_byte
    ℕ_discrete
msg_type-build_discover mac xid none vendor = ground arith
msg_type-build_discover mac xid (some a) vendor = ground arith

client_id-build_discover :
    (mac : List ℕ) (xid : ℕ) (req_ip : Option Ip) (vendor : List ℕ)
    → client_id (on_wire (build_discover mac xid req_ip vendor)) ≡ hex mac
unfolding build_discover client_id options_client_id put_requested put_vendor client_packet lookup
    insert ℕ_discrete
client_id-build_discover mac xid none vendor = ground arith
client_id-build_discover mac xid (some a) vendor = ground arith

-- A DISCOVER that asks for no address.
pub requested_ip-build_discover :
    (mac : List ℕ) (xid : ℕ) (vendor : List ℕ)
    → requested_ip (on_wire (build_discover mac xid none vendor)).options ≡ none
unfolding build_discover requested_ip address_option put_requested put_vendor client_packet lookup
    insert ℕ_discrete
requested_ip-build_discover mac xid vendor = ground arith

module _ (mac : List ℕ) (xid : ℕ) (server_ip ip : Ip) where
  abbrev pub request : Packet
  request = build_request mac xid (some server_ip) (some ip) []

  msg_type-request : msg_type request.options ≡ some msg_request
  unfolding build_request msg_type put_vendor client_packet lookup insert first_byte ℕ_discrete
  msg_type-request = ground arith

  client_id-request : client_id (on_wire request) ≡ hex mac
  unfolding build_request client_id options_client_id put_vendor client_packet lookup insert
      ℕ_discrete
  client_id-request = ground arith

  server_id-request : server_id request.options ≡ some server_ip
  unfolding build_request server_id address_option put_vendor client_packet lookup insert to4
      encode_ip ℕ_discrete
  server_id-request = ground arith

  wanted_ip-request : wanted_ip (on_wire request) ≡ some ip
  unfolding is_unspecified uint32_to_ip Ip-discrete build_request wanted_ip requested_ip
      address_option put_vendor client_packet lookup insert to4 encode_ip ℕ_discrete
  wanted_ip-request = ground arith

-- The messages as the wire carries them.
pub messages-AreMessages :
    (server_ip : Ip) (mac : List ℕ) (xid : ℕ) (req_ip : Option Ip) (vendor : List ℕ)
    → AreMessages server_ip
        (hex mac)
        xid
        (on_wire (build_discover mac xid req_ip vendor))
        (λ ip. on_wire (request mac xid server_ip ip))
messages-AreMessages server_ip mac xid req_ip vendor = record {
  disc_type = msg_type-build_discover mac xid req_ip vendor;
  disc_client = client_id-build_discover mac xid req_ip vendor;
  disc_xid = unfold build_discover client_packet in refl;
  req_type = λ ip. msg_type-request mac xid server_ip ip;
  req_client = λ ip. client_id-request mac xid server_ip ip;
  req_xid = λ ip. unfold build_request client_packet in refl;
  req_server = λ ip. server_id-request mac xid server_ip ip;
  req_wants = λ ip. wanted_ip-request mac xid server_ip ip;
}

discover-Encodable :
    (req_ip : Option Ip) (vendor : List ℕ)
    → length vendor < 256
    → Encodable
        (put_requested req_ip (put_vendor vendor (insert opt_msg_type (msg_discover ∷ []) [])))
unfolding put_requested put_vendor lookup insert encode_ip ℕ_discrete
discover-Encodable none vendor short = elim (vendor =? []) [
  | yes e ↦ rw (if_pos _ e) (ground arith)
  | no e ↦ rw (if_neg _ e) (ground arith)
]
discover-Encodable (some a) vendor short = elim (vendor =? []) [
  | yes e ↦ rw (if_pos _ e) (ground arith)
  | no e ↦ rw (if_neg _ e) (ground arith)
]

-- The packets fit the wire.
pub discover-IsPacket :
    (mac : List ℕ) (xid : ℕ) (req_ip : Option Ip) (vendor : List ℕ)
    → length mac ≡ 6
    → xid < 4294967296
    → length vendor < 256
    → IsPacket (build_discover mac xid req_ip vendor)
unfolding build_discover client_packet
discover-IsPacket mac xid req_ip vendor six small short = record {
  xid_fits = small;
  secs_fits = omega arith;
  flags_fits = omega arith;
  chaddr_length = six;
  chaddr_fits = omega arith;
  sname_length = refl;
  file_length = refl;
  options_fit = discover-Encodable req_ip vendor short;
}

pub request-IsPacket :
    (mac : List ℕ) (xid : ℕ) (server_ip ip : Ip)
    → length mac ≡ 6
    → xid < 4294967296
    → IsPacket (request mac xid server_ip ip)
unfolding build_request client_packet put_vendor lookup insert encode_ip ℕ_discrete Text-discrete
request-IsPacket mac xid server_ip ip six small = record {
  xid_fits = small;
  secs_fits = omega arith;
  flags_fits = omega arith;
  chaddr_length = six;
  chaddr_fits = omega arith;
  sname_length = refl;
  file_length = refl;
  options_fit = ground arith;
}

pub same_device :
    (z : Option Ztp) (p q : Packet) → p.chaddr ≡ q.chaddr → (lookup_ztp z p).0 ≡ (lookup_ztp z q).0
unfolding lookup_ztp lookup_for_packet
same_device none p q h = refl
same_device (some z) p q h = ap (get_device z) h

pub same_chaddr :
    (mac : List ℕ) (xid : ℕ) (req_ip : Option Ip) (vendor : List ℕ) (server_ip ip : Ip)
    → (request mac xid server_ip ip).chaddr ≡ (build_discover mac xid req_ip vendor).chaddr
unfolding build_discover build_request client_packet
same_chaddr mac xid req_ip vendor server_ip ip = refl

-- No relay is named, so the server's own address picks the subnet.
pub discover-address :
    (mac : List ℕ) (xid : ℕ) (req_ip : Option Ip) (vendor : List ℕ) (server_ip : Ip)
    → lookup_address (on_wire (build_discover mac xid req_ip vendor)).giaddr (some server_ip)
      ≡ some server_ip
unfolding build_discover client_packet lookup_address is_unspecified uint32_to_ip Ip-discrete
discover-address mac xid req_ip vendor server_ip = refl

pub request-address :
    (mac : List ℕ) (xid : ℕ) (server_ip ip : Ip)
    → lookup_address (on_wire (request mac xid server_ip ip)).giaddr (some server_ip)
      ≡ some server_ip
unfolding build_request client_packet lookup_address is_unspecified uint32_to_ip Ip-discrete
request-address mac xid server_ip ip = refl

-- A reply to the client's packets is broadcast.
pub discover-destination :
    (mac : List ℕ) (xid : ℕ) (req_ip : Option Ip) (vendor : List ℕ)
    → destination (on_wire (build_discover mac xid req_ip vendor)) ≡ (broadcast_ip, 68)
unfolding destination build_discover client_packet specified is_unspecified uint32_to_ip Ip-discrete
discover-destination mac xid req_ip vendor = refl

pub request-destination :
    (mac : List ℕ) (xid : ℕ) (server_ip ip : Ip)
    → destination (on_wire (request mac xid server_ip ip)) ≡ (broadcast_ip, 68)
unfolding destination build_request client_packet specified is_unspecified uint32_to_ip Ip-discrete
request-destination mac xid server_ip ip = refl
