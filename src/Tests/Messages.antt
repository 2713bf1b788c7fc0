-- ===== src/Tests/Messages.antt =====
-- The theorems on a datagram and on a DISCOVER at work.
use mydhcp.Common.{
  ℕ, ◌≡◌, refl, List, [], ◌∷◌, Option, some, none, arith, ok, err, ◌++◌, true, false, ◌==◌, nat_eq,
  text_eq, Text-discrete, ◌≢◌,
}
use mydhcp.Net.{Ip, ip_eq, Ip-discrete}
use mydhcp.Net.Cidr.{contains}
use mydhcp.Store.Defs.{circulating}
use mydhcp.Store.Ops.{get_by_client, first, allocate, renew}
use mydhcp.Store.Calls.{run, step}
use mydhcp.Store.Sweep.{empty_store}
use mydhcp.Subnet.{lookup_address}
use mydhcp.Dhcp.Options.{parse_options, serialize_entries, opt_end, stuck}
use mydhcp.Dhcp.Options.RoundTrip.{parse_options-ne-stuck}
use mydhcp.Dhcp.Packet.{Packet, parse, serialize, client_id}
use mydhcp.Dhcp.Packet.RoundTrip.{on_wire, parse-serialize}
use mydhcp.Dhcp.Handler.{Outcome, handle_discover, dispatch, static_ip}
use mydhcp.Dhcp.Handler.Discover.{
  Offers, discovered, handle_discover-Offers, handle_discover_answers,
}
use mydhcp.Dhcp.Handler.Replies.{Echoes}
use mydhcp.Dhcp.Handler.Rediscover.{rediscover_leaks}
use mydhcp.Dhcp.Handler.Fits.{IsRepeatable, dispatch-parse}
use mydhcp.Dhcp.Server.{handle_packet}
use mydhcp.Dhcp.Server.Routing.{Serves, handle_packet-Serves}
use mydhcp.Dhcp.Server.Loop.{
  Read, fails, receives, stopped, read_loop, without_noise, read_loop-without_noise,
}
use mydhcp.Tests.Data.{host, alice, start, start-IsValid, busy, busy-IsValid, alice_lease}
use mydhcp.Tests.Nets.{
  lan, subnets, subnets-Separate, lan_entry, lan-found, discover, discover-IsPacket,
}

parse_options-ne-stuck_example : parse_options (53 ∷ 1 ∷ []) ≢ err stuck
parse_options-ne-stuck_example = parse_options-ne-stuck (53 ∷ 1 ∷ [])

parse-serialize_example : parse (serialize discover) ≡ ok (on_wire discover)
parse-serialize_example = parse-serialize discover discover-IsPacket

relay_looked_up : lookup_address (on_wire discover).giaddr (some (host 1)) ≡ some (host 1)
unfolding lookup_address Ip-discrete mydhcp.Net.uint32_to_ip
relay_looked_up = refl

pub relay_inside : contains lan.network (host 1) ≡ true
unfolding contains mydhcp.Net.Cidr.prefix mydhcp.Net.ip_to_uint32
relay_inside = refl

handle_packet-Serves_example :
    Serves
      (some (host 1))
      none
      subnets
      lan_entry
      (host 1)
      (on_wire discover)
      9
      (handle_packet (some (host 1)) none subnets (serialize discover) 9)
handle_packet-Serves_example =
    handle_packet-Serves (some (host 1)) none subnets discover 9 lan.name lan_entry (host 1)
      discover-IsPacket refl subnets-Separate lan-found relay_looked_up relay_inside

start_first : first start.available ≡ some (host 2)
unfolding first
start_first = refl

pub answered :
    (reply : Packet) × ((discovered (some (host 1)) discover lan start none none 9).reply
      ≡ some reply)
    × Offers (some (host 1)) discover lan start none none 9 reply
answered =
    handle_discover_answers (some (host 1)) discover lan start none none 9 (host 2) start-IsValid
      start_first

handle_discover_answers_example :
    (reply : Packet) × ((discovered (some (host 1)) discover lan start none none 9).reply
      ≡ some reply)
    × Offers (some (host 1)) discover lan start none none 9 reply
handle_discover_answers_example =
    handle_discover_answers (some (host 1)) discover lan start none none 9 (host 2) start-IsValid
      start_first

abbrev pub alice_offer : Packet
alice_offer = answered.0

handle_discover-Offers_example : Offers (some (host 1)) discover lan start none none 9 alice_offer
handle_discover-Offers_example =
    handle_discover-Offers (some (host 1)) discover lan start none none 9 alice_offer start-IsValid
      answered.1

dispatched :
    dispatch (some (host 1)) discover lan start none none 9
    ≡ handle_discover (some (host 1)) discover lan start none none 9
unfolding dispatch handle_discover mydhcp.Dhcp.Options.msg_type mydhcp.Dhcp.Handler.find_lease
    mydhcp.Common.Maps.lookup mydhcp.Dhcp.Handler.preferred_ip mydhcp.Common.ℕ_discrete
dispatched = refl

pub dispatched_offer :
    (dispatch (some (host 1)) discover lan start none none 9).reply ≡ some alice_offer
dispatched_offer = cc (dispatched, answered.1)

discover-IsRepeatable : IsRepeatable discover
discover-IsRepeatable = record {
  xid_fits = discover-IsPacket.xid_fits;
  flags_fits = discover-IsPacket.flags_fits;
  chaddr_length = discover-IsPacket.chaddr_length;
  chaddr_fits = discover-IsPacket.chaddr_fits;
}

pub offer_reads :
    Echoes discover alice_offer × (parse (serialize alice_offer) ≡ ok (on_wire alice_offer))
offer_reads =
    dispatch-parse (some (host 1)) discover lan discover-IsRepeatable (omega arith) start none none
      9 alice_offer dispatched_offer

dispatch-parse_example :
    Echoes discover alice_offer × (parse (serialize alice_offer) ≡ ok (on_wire alice_offer))
dispatch-parse_example =
    dispatch-parse (some (host 1)) discover lan discover-IsRepeatable (omega arith) start none none
      9 alice_offer dispatched_offer

alice_id : client_id discover ≡ alice
unfolding client_id Text-discrete mydhcp.Dhcp.Options.options_client_id mydhcp.Common.Maps.lookup
alice_id = refl

alice_holds : get_by_client busy (client_id discover) ≡ some alice_lease
unfolding get_by_client mydhcp.Common.Maps.lookup run step allocate renew empty_store
    mydhcp.Common.Maps.insert Ip-discrete Text-discrete client_id
    mydhcp.Dhcp.Options.options_client_id
alice_holds = refl

dynamic : static_ip none ≡ none
unfolding static_ip
dynamic = refl

pub busy_first : first busy.available ≡ some (host 4)
unfolding first run step allocate mydhcp.Common.Maps.lookup renew empty_store
    mydhcp.Common.Maps.insert Ip-discrete Text-discrete
busy_first = refl

rediscover_leaks_example :
    (circulating (host 2) busy ≡ 1)
    × (circulating (host 2) (handle_discover (some (host 1)) discover lan busy none none 9).store
        ≡ 0)
rediscover_leaks_example =
    rediscover_leaks (some (host 1)) discover lan busy none none 9 alice_lease (host 4) busy-IsValid
      dynamic alice_holds refl busy_first

abbrev traffic : List Read
traffic = fails ∷ receives (1 ∷ 2 ∷ []) 8 ∷ receives (serialize discover) 9 ∷ fails ∷ stopped ∷ []

read_loop-without_noise_example :
    read_loop (some (host 1)) none subnets traffic
    ≡ read_loop (some (host 1)) none subnets (without_noise traffic)
read_loop-without_noise_example = read_loop-without_noise (some (host 1)) none subnets traffic
