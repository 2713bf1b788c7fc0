-- ===== src/Dhcp/Server/Sound.antt =====
-- The subnets and their stores stay well-formed under every datagram and every sweep.
use mydhcp.Common.{
  ℕ, ◌≡◌, List, Option, some, arith, Option-cases, Bool-cases, inl, inr, true, Result-cases, ◌==◌,
}
use mydhcp.Net.{Ip}
use mydhcp.Store.Defs.{Store}
use mydhcp.Store.Sweep.{expire}
use mydhcp.Store.Calls.{expires, cools, step}
use mydhcp.Store.Invariant.Steps.{step-IsValid}
use mydhcp.Store.Invariant.{IsValid}
use mydhcp.Subnet.{Config, Entry, Manager, for_packet, lookup_address, put_store}
use mydhcp.Subnet.Sound.{IsSound, put_store-IsSound, found-IsValid}
use mydhcp.Ztp.Defs.{Ztp}
use mydhcp.Dhcp.Packet.{Packet, parse}
use mydhcp.Dhcp.Handler.{dispatch}
use mydhcp.Dhcp.Handler.Safety.{dispatch-IsValid}
use mydhcp.Dhcp.Server.{handle_parsed, handle_packet, lookup_ztp, reap}

-- What a datagram of an operation that is a request, for a subnet that is found, leaves.
pub handle_parsed_found :
    (server_ip : Option Ip) (z : Option Ztp) (m : Manager) (pkt : Packet) (now : ℕ) (e : Entry)
    → (pkt.op == 1) ≡ true
    → for_packet m pkt.giaddr server_ip ≡ some e
    → (handle_parsed server_ip z m pkt now).subnets
      ≡ put_store m
          (lookup_address pkt.giaddr server_ip)
          (dispatch server_ip pkt e.cfg e.mem (lookup_ztp z pkt).0 (lookup_ztp z pkt).1 now).store
unfolding handle_parsed
handle_parsed_found server_ip z m pkt now e request found = ground (arith, request, found)

handle_parsed-IsSound :
    (server_ip : Option Ip) (z : Option Ztp) (m : Manager) (pkt : Packet) (now : ℕ)
    → IsSound m
    → IsSound (handle_parsed server_ip z m pkt now).subnets
handle_parsed-IsSound server_ip z m pkt now sound = elim (Bool-cases (pkt.op == 1)) [
  | inr other ↦ unfold handle_parsed in ground (arith, other, sound)
  | inl request ↦ elim (Option-cases (for_packet m pkt.giaddr server_ip)) [
    | inl e ↦ unfold handle_parsed in ground (arith, request, e, sound)
    | inr (e, found) ↦ rw (handle_parsed_found server_ip z m pkt now e request found) (
        put_store-IsSound m _ _
          (dispatch-IsValid server_ip pkt e.cfg e.mem (lookup_ztp z pkt).0 (lookup_ztp z pkt).1 now
            (unfold for_packet in
              found-IsValid m (lookup_address pkt.giaddr server_ip) e sound.stores found))
          sound)
  ]
]

-- Where the subnets are apart and their stores well-formed, they stay so under every datagram,
-- whatever its bytes.
pub handle_packet-IsSound :
    (server_ip : Option Ip) (z : Option Ztp) (m : Manager) (bytes : List ℕ) (now : ℕ)
    → IsSound m
    → IsSound (handle_packet server_ip z m bytes now).subnets
unfolding handle_packet
handle_packet-IsSound server_ip z m bytes now sound = elim (Result-cases (parse bytes)) [
  | inl (pkt, e) ↦ ground (arith, e, handle_parsed-IsSound server_ip z m pkt now sound)
  | inr (x, e) ↦ ground (arith, e, sound)
]

-- The reaper's sweep keeps a well-formed store well-formed.
pub reap-IsValid : (cfg : Config) (s : Store) (now : ℕ) → IsValid s → IsValid (reap cfg s now).0
unfolding reap step
reap-IsValid cfg s now v =
    unfold step in step-IsValid (expire s now).0 (cools now) (step-IsValid s (expires now) v)
