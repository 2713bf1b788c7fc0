-- ===== src/Dhcp/Server.antt =====
-- server.go: the way of one datagram through the server, and the reaper's sweep. Sockets and
-- timers are left out: a datagram comes in as bytes, and what is sent is a destination and bytes.
pub mod Sound
pub mod Routing
pub mod Loop
use mydhcp.Common.{
  ℕ, List, [], ◌∷◌, ◌++◌, Option, some, none, Bool, true, false, ◌==◌, ◌||◌, not, if◌then◌else◌,
  Result, ok, err, map,
}
use mydhcp.Lease.{Lease}
use mydhcp.Net.{Ip, uint32_to_ip}
use mydhcp.Plugin.{EventType, LeaseEvent}
use mydhcp.Store.Defs.{Store}
use mydhcp.Store.Sweep.{expire, cool_down}
use mydhcp.Subnet.{Config, Entry, Manager, is_unspecified, for_packet, lookup_address, put_store}
use mydhcp.Ztp.Defs.{Device, Profile, Ztp}
use mydhcp.Ztp.Ops.{lookup_for_packet}
use mydhcp.Dhcp.Options.{vendor_class}
use mydhcp.Dhcp.Packet.{Packet, parse, serialize, broadcast_requested}
use mydhcp.Dhcp.Handler.{Outcome, dispatch, specified}

-- A datagram that the server sends.
pub record Datagram : Type 0 where
  pub address : Ip
  pub port : ℕ
  pub payload : List ℕ

unfoldable pub broadcast_ip : Ip
broadcast_ip = record { b0 = 255; b1 = 255; b2 = 255; b3 = 255 }

-- The destination of sendReply: the relay, or the broadcast address, or the client's own address.
unfoldable pub destination : Packet → Ip × ℕ
unfolding specified broadcast_ip
destination req = elim (specified req.giaddr) [
  | some relay ↦ (relay, 67)
  | none ↦ elim (specified req.ciaddr) [
    | none ↦ (broadcast_ip, 68)
    | some client ↦ if broadcast_requested req then (broadcast_ip, 68) else (client, 68)
  ]
]

unfoldable pub send_reply : Packet → Packet → Datagram
unfolding destination
send_reply reply req =
    let (address, port) = destination req in
    record { address = address; port = port; payload = serialize reply }

-- What one datagram leaves and causes.
pub record Served : Type 0 where
  pub subnets : Manager
  pub sent : Option Datagram
  pub events : List LeaseEvent

unfoldable pub lookup_ztp : Option Ztp → Packet → Option Device × Option Profile
lookup_ztp none pkt = (none, none)
lookup_ztp (some z) pkt = lookup_for_packet z pkt.chaddr (vendor_class pkt.options)

-- handlePacket, after the packet is parsed.
unfoldable pub handle_parsed : Option Ip → Option Ztp → Manager → Packet → ℕ → Served
handle_parsed server_ip z m pkt now =
    if pkt.op == 1
    then elim (for_packet m pkt.giaddr server_ip) [
      | none ↦ record { subnets = m; sent = none; events = [] }
      | some e ↦
          let found = lookup_ztp z pkt in
          let out = dispatch server_ip pkt e.cfg e.mem found.0 found.1 now in
          record {
            subnets = put_store m (lookup_address pkt.giaddr server_ip) out.store;
            sent = elim out.reply [ none ↦ none | some reply ↦ some (send_reply reply pkt) ];
            events = out.events;
          }
    ]
    else record { subnets = m; sent = none; events = [] }

unfoldable pub handle_packet : Option Ip → Option Ztp → Manager → List ℕ → ℕ → Served
handle_packet server_ip z m bytes now = elim (parse bytes) [
  | err e ↦ record { subnets = m; sent = none; events = [] }
  | ok pkt ↦ handle_parsed server_ip z m pkt now
]

-- The interval of the reaper that Start starts, in nanoseconds.
unfoldable pub reaper_interval : Config → ℕ
reaper_interval cfg =
    if cfg.lease_reaper_interval == 0 then 60000000000 else cfg.lease_reaper_interval

unfoldable pub expired_event : Config → Lease → LeaseEvent
expired_event cfg l = record {
  kind = EventType.expired;
  ip = l.ip;
  client_id = l.client_id;
  client_hw = [];
  gi_addr = l.gi_addr;
  subnet_name = cfg.name;
  subnet_cidr = cfg.network;
  expires_at = 0;
}

-- Reaper.sweep: the addresses of declined leases return silently.
unfoldable pub reap : Config → Store → ℕ → Store × List LeaseEvent
unfolding expired_event
reap cfg s now =
    let (s', gone) = expire s now in
    let (t, cooled) = cool_down s' now in (t, map (expired_event cfg) gone)
