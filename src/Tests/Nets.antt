-- ===== src/Tests/Nets.antt =====
-- Two subnets, the packets of a client of the first one, and the server's own address.
use mydhcp.Common.{◌≡◌, refl, [], ◌∷◌, some, none, arith, replicate, nat_eq, text_eq, Text-discrete}
use mydhcp.Common.Maps.{lookup}
use mydhcp.Net.{Ip, ip_eq, Ip-discrete, uint32_to_ip, ip_to_uint32}
use mydhcp.Net.Cidr.{IpNet, contains}
use mydhcp.Subnet.{Config, Entry, Manager, overlaps_any, overlaps}
use mydhcp.Subnet.Order.{Separate}
use mydhcp.Subnet.Sound.{IsSound}
use mydhcp.Dhcp.Packet.{Packet}
use mydhcp.Dhcp.Packet.RoundTrip.{IsPacket}
use mydhcp.Tests.Data.{host, alice_mac, start, start-IsValid, busy, busy-IsValid}

abbrev pub lan : Config
lan = record {
  name = 49 ∷ [];
  network = record { ip = host 0; ones = 24 };
  router = some (host 1);
  dns = [];
  broadcast = some (host 255);
  lease_time = 100;
  offer_timeout = 10;
  decline_cooldown = 50;
  lease_reaper_interval = 5;
  range_start = some (host 2);
  range_end = some (host 4);
}

abbrev pub other_lan : Config
other_lan = record lan {
  name = 50 ∷ [];
  network = record { ip = record { b0 = 10; b1 = 0; b2 = 1; b3 = 0 }; ones = 24 };
}

abbrev pub lan_entry : Entry
lan_entry = record { cfg = lan; mem = busy }

abbrev pub subnets : Manager
subnets = (other_lan.name, record { cfg = other_lan; mem = start }) ∷ (lan.name, lan_entry) ∷ []

pub subnets-Separate : Separate subnets
unfolding lookup Text-discrete overlaps_any overlaps contains mydhcp.Net.Cidr.prefix ip_to_uint32
subnets-Separate = (refl, ground arith, refl, (refl, ground arith, refl, tt))

pub subnets-IsSound : IsSound subnets
subnets-IsSound = record { apart = subnets-Separate; stores = (start-IsValid, (busy-IsValid, tt)) }

pub lan-found : lookup lan.name subnets ≡ some lan_entry
unfolding lookup Text-discrete
lan-found = refl

abbrev pub discover : Packet
discover = record {
  op = 1;
  htype = 1;
  hlen = 6;
  hops = 1;
  xid = 77;
  secs = 0;
  flags = 32768;
  ciaddr = none;
  yiaddr = none;
  siaddr = none;
  giaddr = some (host 1);
  chaddr = alice_mac;
  sname = replicate 64 0;
  file = replicate 128 0;
  options = (53, 1 ∷ []) ∷ [];
}

-- Alice asks to keep her address.
abbrev pub request : Packet
request = record discover {
  ciaddr = some (host 2);
  options = (53, 3 ∷ []) ∷ (54, 10 ∷ 0 ∷ 0 ∷ 1 ∷ []) ∷ [];
}

pub discover-IsPacket : IsPacket discover
unfolding lookup
discover-IsPacket = record {
  xid_fits = ground arith;
  secs_fits = ground arith;
  flags_fits = ground arith;
  chaddr_length = refl;
  chaddr_fits = ground arith;
  sname_length = refl;
  file_length = refl;
  options_fit = (refl, ground arith, ground arith, ground arith, tt);
}
