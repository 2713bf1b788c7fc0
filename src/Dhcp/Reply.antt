-- ===== src/Dhcp/Reply.antt =====
-- handler.go: the replies that the handlers build, and the events that they emit.
use mydhcp.Common.{
  ℕ, ◌/◌, List, [], ◌∷◌, ◌++◌, Option, some, none, ltb, if◌then◌else◌, nat_eq, text_eq, replicate,
}
use mydhcp.Common.Maps.{insert}
use mydhcp.Net.{Ip, ip_eq}
use mydhcp.Net.Cidr.{mask}
use mydhcp.Plugin.{EventType, LeaseEvent}
use mydhcp.Subnet.{Config}
use mydhcp.Text.{hex, dotted}
use mydhcp.Ztp.Defs.{Profile}
use mydhcp.Dhcp.Options.{
  Options, opt_subnet_mask, opt_router, opt_dns, opt_broadcast_address, opt_lease_time,
  opt_msg_type, opt_server_id, opt_tftp_server, opt_bootfile, msg_nak, encode_ip, encode_ips,
  encode_uint32,
}
use mydhcp.Dhcp.Packet.{Packet, client_id}

-- `if a != nil { opts[code] = EncodeIP(a) }`
unfoldable pub put_address : ℕ → Option Ip → Options → Options
unfolding encode_ip
put_address code none opts = opts
put_address code (some a) opts = insert code (encode_ip (some a)) opts

-- `if len(dns) > 0 { opts[OptDNS] = EncodeIPs(dns) }`
unfoldable pub put_dns : List (Option Ip) → Options → Options
unfolding encode_ips
put_dns [] opts = opts
put_dns (a ∷ rest) opts = insert opt_dns (encode_ips (a ∷ rest)) opts

unfoldable pub base_options : Option Ip → ℕ → Options
unfolding encode_ip
base_options server_ip kind =
    insert opt_server_id (encode_ip server_ip) (insert opt_msg_type (kind ∷ []) [])

-- The options of a reply that offers an address for a while; the lease time in whole seconds modulo
-- 2 ^ 32, as encode_uint32 writes it, stands for the conversion of the float64 of Seconds.
unfoldable pub lease_options : Config → ℕ → Options → Options
unfolding put_address put_dns encode_uint32 encode_ip
lease_options cfg lease_time opts = put_address opt_broadcast_address cfg.broadcast (
    put_dns cfg.dns (
      put_address opt_router cfg.router (
        insert opt_subnet_mask (encode_ip (some (mask cfg.network)))
          (insert opt_lease_time (encode_uint32 (lease_time / 1000000000)) opts))))

unfoldable pub zeros : ℕ → List ℕ
zeros n = replicate n 0

-- buildReply; the address is nil in the reply to an INFORM.
unfoldable pub build_reply : Option Ip → Packet → Config → Option Ip → ℕ → ℕ → Packet
unfolding base_options lease_options zeros
build_reply server_ip pkt cfg offer_ip kind lease_time =
    let opts = base_options server_ip kind in
    record {
      op = 2;
      htype = pkt.htype;
      hlen = pkt.hlen;
      hops = 0;
      xid = pkt.xid;
      secs = 0;
      flags = pkt.flags;
      ciaddr = none;
      yiaddr = offer_ip;
      siaddr = none;
      giaddr = pkt.giaddr;
      chaddr = pkt.chaddr;
      sname = zeros 64;
      file = zeros 128;
      options = elim offer_ip [
        | none ↦ opts
        | some a ↦ if ltb 0 lease_time then lease_options cfg lease_time opts else opts
      ];
    }

-- buildNak
unfoldable pub build_nak : Option Ip → Packet → Packet
unfolding base_options zeros
build_nak server_ip pkt = record {
  op = 2;
  htype = pkt.htype;
  hlen = pkt.hlen;
  hops = 0;
  xid = pkt.xid;
  secs = 0;
  flags = pkt.flags;
  ciaddr = none;
  yiaddr = none;
  siaddr = none;
  giaddr = pkt.giaddr;
  chaddr = pkt.chaddr;
  sname = zeros 64;
  file = zeros 128;
  options = base_options server_ip msg_nak;
}

-- serverIP.String() of an address or of nil.
unfoldable pub ip_text : Option Ip → List ℕ
unfolding dotted
ip_text none = b'<' ∷ b'n' ∷ b'i' ∷ b'l' ∷ b'>' ∷ []
ip_text (some a) = dotted a

-- injectZTPOptions
unfoldable pub inject_ztp_options : Packet → Option Ip → List ℕ → Option Profile → Packet
unfolding ip_text hex
inject_ztp_options pkt server_ip chaddr none = pkt
inject_ztp_options pkt server_ip chaddr (some profile) = record pkt {
  options =
      insert opt_bootfile (hex chaddr ++ b'.' ∷ b'c' ∷ b'f' ∷ b'g' ∷ [])
        (insert opt_tftp_server (ip_text server_ip) pkt.options);
}

unfoldable pub lease_event : EventType → Packet → Config → Ip → ℕ → LeaseEvent
unfolding client_id
lease_event kind pkt cfg ip expires_at = record {
  kind = kind;
  ip = ip;
  client_id = client_id pkt;
  client_hw = pkt.chaddr;
  gi_addr = pkt.giaddr;
  subnet_name = cfg.name;
  subnet_cidr = cfg.network;
  expires_at = expires_at;
}
