-- ===== src/Dhcp/Server/Routing.antt =====
-- Which subnet serves a datagram, whatever the order of the subnets, and where the reply goes.
use mydhcp.Common.{
  ℕ, ◌≡◌, ◌∙◌, ap, refl, List, Option, some, none, arith, Bool, true, false, ◌==◌, ok, Option-cases,
  Bool-cases, ◌⊎◌, inl, inr, text_eq,
}
use mydhcp.Common.Maps.{lookup}
use mydhcp.Net.{Ip, Ip-discrete, uint32_to_ip}
use mydhcp.Net.Cidr.{contains}
use mydhcp.Subnet.{
  Entry, Manager, is_unspecified, subnet_for_ip, for_packet, lookup_address, put_store,
}
use mydhcp.Subnet.Order.{Separate, subnet_for_ip_lem, subnet_for_ip-put_store}
use mydhcp.Ztp.Defs.{Ztp}
use mydhcp.Dhcp.Packet.{Packet, parse, serialize, broadcast_requested}
use mydhcp.Dhcp.Packet.RoundTrip.{IsPacket, on_wire, parse-serialize}
use mydhcp.Dhcp.Handler.{Outcome, dispatch, specified}
use mydhcp.Dhcp.Server.{
  Served, Datagram, broadcast_ip, destination, send_reply, lookup_ztp, handle_parsed, handle_packet,
}

-- What the message leaves and causes in the subnet of an entry.
abbrev pub outcome : Option Ip → Option Ztp → Entry → Packet → ℕ → Outcome
outcome server_ip z e pkt now =
    dispatch server_ip pkt e.cfg e.mem (lookup_ztp z pkt).0 (lookup_ztp z pkt).1 now

-- What is sent for a reply.
abbrev pub sent_for : Packet → Option Packet → Option Datagram
sent_for pkt none = none
sent_for pkt (some reply) = some (send_reply reply pkt)

-- The subnets, the datagram and the events that the entry's outcome makes of the datagram.
abbrev pub Serves : Option Ip → Option Ztp → Manager → Entry → Ip → Packet → ℕ → Served → Type 0
Serves server_ip z m e a pkt now served =
    (subnet_for_ip served.subnets (some a)
      ≡ some (record e { mem = (outcome server_ip z e pkt now).store }))
    × (served.sent ≡ sent_for pkt (outcome server_ip z e pkt now).reply)
    × (served.events ≡ (outcome server_ip z e pkt now).events)

module _ (server_ip : Option Ip) (z : Option Ztp) (m : Manager) (pkt : Packet) (now : ℕ) (e : Entry)
    (request : (pkt.op == 1) ≡ true) (found : for_packet m pkt.giaddr server_ip ≡ some e) where
  served_subnets :
      (handle_parsed server_ip z m pkt now).subnets
      ≡ put_store m (lookup_address pkt.giaddr server_ip) (outcome server_ip z e pkt now).store
  unfolding handle_parsed
  served_subnets = ground (arith, request, found)

  pub served_sent :
      (handle_parsed server_ip z m pkt now).sent
      ≡ sent_for pkt (outcome server_ip z e pkt now).reply
  unfolding handle_parsed
  served_sent = elim (Option-cases (outcome server_ip z e pkt now).reply) [
    | inl silence ↦ ground (arith, request, found, silence)
    | inr (reply, h) ↦ ground (arith, request, found, h)
  ]

  served_events :
      (handle_parsed server_ip z m pkt now).events ≡ (outcome server_ip z e pkt now).events
  unfolding handle_parsed
  served_events = ground (arith, request, found)

pub parsed_lem :
    (server_ip : Option Ip) (z : Option Ztp) (m : Manager) (bytes : List ℕ) (pkt : Packet) (now : ℕ)
    → parse bytes ≡ ok pkt
    → handle_packet server_ip z m bytes now ≡ handle_parsed server_ip z m pkt now
unfolding handle_packet
parsed_lem server_ip z m bytes pkt now h = ground (arith, h)

-- The serialised bytes of a request are served by the subnet that the looked-up address finds.
pub found-Serves :
    (server_ip : Option Ip) (z : Option Ztp) (m : Manager) (p : Packet) (now : ℕ) (e : Entry)
    (a : Ip)
    → IsPacket p
    → ((on_wire p).op == 1) ≡ true
    → lookup_address (on_wire p).giaddr server_ip ≡ some a
    → subnet_for_ip m (some a) ≡ some e
    → Serves server_ip z m e a (on_wire p) now (handle_packet server_ip z m (serialize p) now)
found-Serves server_ip z m p now e a w request at here =
    let found : for_packet m (on_wire p).giaddr server_ip ≡ some e =
      unfold for_packet in ap (subnet_for_ip m) at ∙ here in
    let read : handle_packet server_ip z m (serialize p) now
        ≡ handle_parsed server_ip z m (on_wire p) now =
      parsed_lem server_ip z m (serialize p) (on_wire p) now (parse-serialize p w) in
    let left = served_subnets server_ip z m (on_wire p) now e request found in
    rw read (
      rw (left, at)
          (subnet_for_ip-put_store m (some a) (outcome server_ip z e (on_wire p) now).store e here),
      served_sent server_ip z m (on_wire p) now e request found,
      served_events server_ip z m (on_wire p) now e request found,
    )

-- Let a packet's fields fit the wire, its operation be a request, no networks overlap, and a
-- subnet's network contain the looked-up address. Then the serialised bytes are served by that
-- subnet, wherever it stands in the manager: its next store, the datagram sent and the events are
-- what Dispatch makes of the packet as the wire carries it.
pub handle_packet-Serves :
    (server_ip : Option Ip) (z : Option Ztp) (m : Manager) (p : Packet) (now : ℕ)
    → (name : List ℕ) (e : Entry) (a : Ip) → IsPacket p
    → ((on_wire p).op == 1) ≡ true
    → Separate m
    → lookup name m ≡ some e
    → lookup_address (on_wire p).giaddr server_ip ≡ some a
    → contains e.cfg.network a ≡ true
    → Serves server_ip z m e a (on_wire p) now (handle_packet server_ip z m (serialize p) now)
handle_packet-Serves server_ip z m p now name e a w request sep held at inside =
    found-Serves server_ip z m p now e a w request at (subnet_for_ip_lem m name e a sep held inside)

-- Whether a relay is named.
abbrev pub relayed : Packet → Bool
relayed req = elim (specified req.giaddr) [ none ↦ false | some relay ↦ true ]

specified-specified : (o : Option Ip) (a : Ip) → specified o ≡ some a → is_unspecified a ≡ false
unfolding specified
specified-specified none a h = absurd (ground arith)
specified-specified (some b) a h = ground (arith, h)

-- The three ways of sendReply.
destination_cases :
    (req : Packet)
    → ((relay : Ip) × (specified req.giaddr ≡ some relay)
        × (destination req ≡ (relay, 67))
        × (relayed req ≡ true))
      ⊎ ((relayed req ≡ false)
          × (((client : Ip) × (specified req.ciaddr ≡ some client)
                × (destination req ≡ (client, 68)))
              ⊎ (destination req ≡ (broadcast_ip, 68))))
unfolding destination
destination_cases req = elim (Option-cases (specified req.giaddr)) [
  | inr (relay, e) ↦ inl (relay, e, ground (arith, e), ground (arith, e))
  | inl direct ↦ elim (Option-cases (specified req.ciaddr)) [
    | inl e ↦ inr (ground (arith, direct), inr (ground (arith, direct, e)))
    | inr (client, e) ↦ elim (Bool-cases (broadcast_requested req)) [
      | inl loud ↦ inr (ground (arith, direct), inr (ground (arith, direct, e, loud)))
      | inr quiet ↦ inr (ground (arith, direct), inl (client, e, ground (arith, direct, e, quiet)))
    ]
  ]
]

-- A reply never goes to 0.0.0.0, and it goes to port 67 exactly when the request names a relay.
pub destination_lem :
    (req : Packet)
    → (is_unspecified (destination req).0 ≡ false) × (((destination req).1 == 67) ≡ relayed req)
unfolding is_unspecified broadcast_ip Ip-discrete uint32_to_ip
destination_lem req = elim (destination_cases req) [
  | inl (relay, e, d, r) ↦ rw d (specified-specified req.giaddr relay e, rw r refl)
  | inr (r, inl (client, e, d)) ↦ rw d (specified-specified req.ciaddr client e, rw r refl)
  | inr (r, inr d) ↦ rw d (refl, rw r refl)
]
