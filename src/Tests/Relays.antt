-- ===== src/Tests/Relays.antt =====
-- The theorems on the relay at work.
use mydhcp.Common.{
  List, [], ◌∷◌, ◌≡◌, ◌∙◌, ap, ℕ, ℕ_discrete, Text-discrete, refl, some, none, true, false, nat_eq,
  arith,
}
use mydhcp.Net.{ip_eq, Ip-discrete, uint32_to_ip}
use mydhcp.Subnet.{is_unspecified}
use mydhcp.Dhcp.Packet.{Packet, serialize}
use mydhcp.Dhcp.Packet.Layout.{or_zero}
use mydhcp.Dhcp.Packet.RoundTrip.{IsPacket, on_wire}
use mydhcp.Common.Maps.{lookup, insert}
use mydhcp.Store.Ops.{first, allocate, renew}
use mydhcp.Store.Sweep.{empty_store}
use mydhcp.Store.Calls.{step, run}
use mydhcp.Dhcp.Options.{msg_type, first_byte}
use mydhcp.Dhcp.Handler.{Outcome, dispatch, handle_discover}
use mydhcp.Dhcp.Handler.Discover.{handle_discover_answers}
use mydhcp.Dhcp.Server.{Datagram, handle_packet, send_reply, lookup_ztp}
use mydhcp.Dhcp.Server.Routing.{Serves, sent_for}
use mydhcp.Relay.Forwarding.{relayed_by, forward_to_server-serialize}
use mydhcp.Relay.Delivery.{forward_to_server-Serves, relay_drops, idle}
use mydhcp.Relay.Loop.{
  listen_address, Interface, Read, receives, fails, stopped, replies, no_reply, run_interface,
}
use mydhcp.Relay.Traffic.{AllRelayed, run_interface-AllRelayed}
use mydhcp.Tests.Data.{host, busy, busy-IsValid}
use mydhcp.Tests.Nets.{
  lan, lan_entry, lan-found, subnets, subnets-Separate, discover, discover-IsPacket,
}
use mydhcp.Tests.Messages.{relay_inside}

-- Alice's packet before it reaches the relay.
abbrev local : Packet
local = record discover { giaddr = none }

local-IsPacket : IsPacket local
local-IsPacket = record {
  xid_fits = discover-IsPacket.xid_fits;
  secs_fits = discover-IsPacket.secs_fits;
  flags_fits = discover-IsPacket.flags_fits;
  chaddr_length = discover-IsPacket.chaddr_length;
  chaddr_fits = discover-IsPacket.chaddr_fits;
  sname_length = discover-IsPacket.sname_length;
  file_length = discover-IsPacket.file_length;
  options_fit = discover-IsPacket.options_fit;
}

-- A reply to Alice that unicasts.
abbrev answer : Packet
answer = record discover { op = 2; flags = 0; yiaddr = some (host 2) }

answer-IsPacket : IsPacket answer
unfolding is_unspecified
answer-IsPacket = record {
  xid_fits = discover-IsPacket.xid_fits;
  secs_fits = discover-IsPacket.secs_fits;
  flags_fits = ground arith;
  chaddr_length = discover-IsPacket.chaddr_length;
  chaddr_fits = discover-IsPacket.chaddr_fits;
  sname_length = discover-IsPacket.sname_length;
  file_length = discover-IsPacket.file_length;
  options_fit = discover-IsPacket.options_fit;
}

unnamed : is_unspecified (or_zero local.giaddr) ≡ true
unfolding is_unspecified Ip-discrete uint32_to_ip
unnamed = refl

agent_named : is_unspecified (host 1) ≡ false
unfolding is_unspecified Ip-discrete uint32_to_ip
agent_named = refl

forward_to_server-Serves_example :
    Serves
      (some (host 1))
      none
      subnets
      lan_entry
      (host 1)
      (on_wire (relayed_by (host 1) local))
      9
      (handle_packet (some (host 1)) none subnets (serialize (relayed_by (host 1) local)) 9)
forward_to_server-Serves_example =
    forward_to_server-Serves (some (host 1)) none subnets (host 1) local 9 lan.name lan_entry
      (serialize (relayed_by (host 1) local)) local-IsPacket refl unnamed agent_named
      subnets-Separate lan-found relay_inside
      (forward_to_server-serialize (host 1) local local-IsPacket refl)

-- Two requests with a read that fails between them, of which the first is answered.
abbrev reads : List Read
reads =
    receives (serialize local) (replies (serialize answer) true)
    ∷ fails
    ∷ receives (serialize local) no_reply
    ∷ stopped
    ∷ []

abbrev port : Interface
port = record { name = []; agent_ip = some (host 1) }

abbrev forwarded : List ℕ
forwarded = serialize (relayed_by (host 1) local)

-- The relayed packet as the server reads it.
abbrev arrived : Packet
arrived = on_wire (relayed_by (host 1) local)

busy_first : first busy.available ≡ some (host 4)
unfolding first run step allocate renew empty_store lookup insert Ip-discrete Text-discrete
busy_first = refl

relayed_offer :
    (reply : Packet) × ((handle_discover (some (host 1)) arrived lan busy none none 9).reply
      ≡ some reply)
relayed_offer =
    let (reply, answered, offers) =
      handle_discover_answers (some (host 1)) arrived lan busy none none 9 (host 4) busy-IsValid
        busy_first in
    (reply, answered)

dispatched :
    dispatch (some (host 1)) arrived lan busy none none 9
    ≡ handle_discover (some (host 1)) arrived lan busy none none 9
unfolding dispatch msg_type lookup first_byte ℕ_discrete
dispatched = refl

abbrev offered : Datagram
offered = send_reply relayed_offer.0 arrived

offered_sent : (handle_packet (some (host 1)) none subnets forwarded 9).sent ≡ some offered
unfolding lookup_ztp
offered_sent =
    forward_to_server-Serves_example.1
    ∙ ap (sent_for arrived) (ap (λ (o : Outcome). o.reply) dispatched ∙ relayed_offer.1)

relay_drops_example :
    ((some offered.address, offered.port) ≡ listen_address port)
    × (run_interface port (receives offered.payload no_reply ∷ reads)
        ≡ idle ∷ run_interface port reads)
relay_drops_example =
    relay_drops (some (host 1)) none subnets port (host 1) local 9 forwarded offered no_reply reads
      local-IsPacket refl unnamed refl agent_named
      (forward_to_server-serialize (host 1) local local-IsPacket refl) offered_sent

run_interface-AllRelayed_example : AllRelayed (run_interface port reads)
run_interface-AllRelayed_example = run_interface-AllRelayed port reads
