-- ===== src/Relay/Delivery.antt =====
-- The way of a client's packet over the relay to its subnet, and the way of a reply back.
use mydhcp.Common.{
  ℕ, ◌+◌, ◌*◌, ◌/◌, ◌%◌, ◌≤◌, ◌<◌, ◌≡◌, ◌∙◌, refl, sym, ap, subst, List, [], ◌∷◌, ◌++◌,
  Option-cases, inl, inr, Option, some, none, Bool, true, false, arith, ◌==◌, if◌then◌else◌, length,
  take, drop, not, text_eq,
}
use mydhcp.Common.Maps.{lookup}
use mydhcp.Net.{Ip}
use mydhcp.Net.Cidr.{contains}
use mydhcp.Subnet.{Entry, Manager, is_unspecified, lookup_address, for_packet}
use mydhcp.Subnet.Order.{Separate}
use mydhcp.Ztp.Defs.{Ztp}
use mydhcp.Dhcp.Options.{serialize_options}
use mydhcp.Dhcp.Packet.{Packet, at, uint16_at, ip_at, serialize, broadcast_requested}
use mydhcp.Dhcp.Packet.Layout.{or_zero, layout, padded, serialize-layout}
use mydhcp.Dhcp.Packet.RoundTrip.{IsPacket, on_wire, long_enough, parse-serialize}
use mydhcp.Dhcp.Handler.{specified}
use mydhcp.Dhcp.Handler.Safety.{dispatch-Echoes}
use mydhcp.Dhcp.Server.{
  Datagram, Served, handle_packet, handle_parsed, lookup_ztp, broadcast_ip, destination, send_reply,
}
use mydhcp.Dhcp.Server.Routing.{
  Serves, handle_packet-Serves, parsed_lem, outcome, sent_for, served_sent,
}
use mydhcp.Relay.Loop.{
  Interface, Upstream, Relayed, Read, receives, relay_packet, run_interface, listen_address,
}
use mydhcp.Relay.{is_zero, forward_to_server, accept_reply, client_address}
use mydhcp.Relay.Forwarding.{relayed_by, is_zero-is_unspecified, forward_to_server-serialize}

relayed_by-IsPacket : (agent : Ip) (p : Packet) → IsPacket p → IsPacket (relayed_by agent p)
relayed_by-IsPacket agent p w = record {
  xid_fits = w.xid_fits;
  secs_fits = w.secs_fits;
  flags_fits = w.flags_fits;
  chaddr_length = w.chaddr_length;
  chaddr_fits = w.chaddr_fits;
  sname_length = w.sname_length;
  file_length = w.file_length;
  options_fit = w.options_fit;
}

agent_looked_up :
    (agent : Ip) (p : Packet) (server_ip : Option Ip)
    → is_unspecified (or_zero p.giaddr) ≡ true
    → is_unspecified agent ≡ false
    → lookup_address (on_wire (relayed_by agent p)).giaddr server_ip ≡ some agent
unfolding lookup_address
agent_looked_up agent p server_ip unnamed named = rw (unnamed, named) refl

-- Let a client's packet fit the wire, be a request and name no relay, no networks overlap, and a
-- subnet's network contain the relay's address for the interface, which is not 0.0.0.0. Then the
-- bytes that the relay forwards are served by that subnet, wherever it stands in the manager, as
-- the client's packet with one hop more and the relay's address.
pub forward_to_server-Serves :
    (server_ip : Option Ip) (z : Option Ztp) (m : Manager) (agent : Ip) (p : Packet) (now : ℕ)
    → (name : List ℕ) (e : Entry) (bytes : List ℕ) → IsPacket p
    → p.op ≡ 1
    → is_unspecified (or_zero p.giaddr) ≡ true
    → is_unspecified agent ≡ false
    → Separate m
    → lookup name m ≡ some e
    → contains e.cfg.network agent ≡ true
    → forward_to_server (some agent) (serialize p) ≡ some bytes
    → Serves server_ip z m e agent
        (on_wire (relayed_by agent p))
        now
        (handle_packet server_ip z m bytes now)
forward_to_server-Serves server_ip z m agent p now name e bytes w request unnamed named sep held
      inside sent =
    let q = relayed_by agent p in
    let is_request : ((on_wire q).op == 1) ≡ true = ap (λ k. k == 1) request in
    let same : serialize q ≡ bytes = cc (forward_to_server-serialize agent p w request, sent) in
    subst (λ b. Serves server_ip z m e agent (on_wire q) now (handle_packet server_ip z m b now))
      same
      (handle_packet-Serves server_ip z m q now name e agent (relayed_by-IsPacket agent p w)
        is_request sep held (agent_looked_up agent p server_ip unnamed named) inside)

dropped : (agent : Option Ip) (pkt : List ℕ) → at pkt 0 ≡ 2 → forward_to_server agent pkt ≡ none
unfolding forward_to_server
dropped agent pkt h = ground (arith, h)

at-serialize : (p : Packet) → at (serialize p) 0 ≡ p.op
unfolding at serialize
at-serialize p = refl

-- A named relay is where the reply goes.
destination_relayed :
    (req : Packet) (agent : Ip)
    → req.giaddr ≡ some agent
    → is_unspecified agent ≡ false
    → destination req ≡ (agent, 67)
unfolding destination specified
destination_relayed req agent h named =
    let there : specified req.giaddr ≡ some agent = ground (arith, h, named) in
    ground (arith, there)

-- What a goroutine of the relay writes and sends for a reply that arrives at its own port.
abbrev pub idle : Relayed
idle = record { to_server = []; to_client = [] }

relay_packet_reply :
    (i : Interface) (pkt : List ℕ) (up : Upstream) → at pkt 0 ≡ 2 → relay_packet i pkt up ≡ idle
unfolding relay_packet
relay_packet_reply i pkt up h = ground (arith, dropped i.agent_ip pkt h)

-- What the server sends for a request is a reply to it, at the destination of that request.
sent_reply :
    (server_ip : Option Ip) (z : Option Ztp) (m : Manager) (p : Packet) (now : ℕ) (d : Datagram)
    → IsPacket p
    → p.op ≡ 1
    → (handle_packet server_ip z m (serialize p) now).sent ≡ some d
    → (reply : Packet) × (reply.op ≡ 2) × (d ≡ send_reply reply (on_wire p))
sent_reply server_ip z m p now d w request sent =
    let q = on_wire p in
    let read = parsed_lem server_ip z m (serialize p) q now (parse-serialize p w) in
    let parsed : (handle_parsed server_ip z m q now).sent ≡ some d =
      sym (ap (λ (v : Served). v.sent) read) ∙ sent in
    let is_request : (q.op == 1) ≡ true = ap (λ k. k == 1) request in
    elim (Option-cases (for_packet m q.giaddr server_ip)) [
      | inl e ↦ absurd (unfold handle_parsed in ground (arith, is_request, e, parsed))
      | inr (e, found) ↦
          let out = outcome server_ip z e q now in
          let from : sent_for q out.reply ≡ some d =
            sym (served_sent server_ip z m q now e is_request found) ∙ parsed in
          elim (Option-cases out.reply) [
            | inl silence ↦ absurd (ground (arith, silence, from))
            | inr (reply, h) ↦
                let echoes =
                  dispatch-Echoes server_ip q e.cfg e.mem (lookup_ztp z q).0 (lookup_ztp z q).1 now
                    reply h in
                (reply, echoes.is_reply, ground (arith, h, from))
          ]
    ]

-- Let a client's packet fit the wire, be a request and name no relay, and the address of the
-- relay's interface not be 0.0.0.0. Whatever subnets and records the server has, a datagram that
-- it sends for the bytes that the relay forwards goes to the address and the port on which the
-- loop of that interface listens, and the goroutine that the loop then starts for it writes
-- nothing to the server and sends nothing to a client.
pub relay_drops :
    (server_ip : Option Ip) (z : Option Ztp) (m : Manager) (i : Interface) (agent : Ip)
    → (p : Packet) (now : ℕ) (bytes : List ℕ) (d : Datagram) (up : Upstream) (later : List Read)
    → IsPacket p
    → p.op ≡ 1
    → is_unspecified (or_zero p.giaddr) ≡ true
    → i.agent_ip ≡ some agent
    → is_unspecified agent ≡ false
    → forward_to_server i.agent_ip (serialize p) ≡ some bytes
    → (handle_packet server_ip z m bytes now).sent ≡ some d
    → ((some d.address, d.port) ≡ listen_address i)
      × (run_interface i (receives d.payload up ∷ later) ≡ idle ∷ run_interface i later)
unfolding listen_address run_interface send_reply
relay_drops server_ip z m i agent p now bytes d up later w request unnamed at_agent named forwards
      sent =
    let q = relayed_by agent p in
    let same : bytes ≡ serialize q =
      cc (forward_to_server-serialize agent p w request, forwards, at_agent) in
    let (reply, is_reply, made) =
      sent_reply server_ip z m q now d (relayed_by-IsPacket agent p w) request
        (ap (λ b. (handle_packet server_ip z m b now).sent) (sym same) ∙ sent) in
    let stamped : (on_wire q).giaddr ≡ some agent = rw unnamed refl in
    let there = destination_relayed (on_wire q) agent stamped named in
    (
      rw (made, there, at_agent) refl,
      ap (λ r. r ∷ run_interface i later)
          (relay_packet_reply i d.payload up
            (ap (λ (x : Datagram). at x.payload 0) made ∙ at-serialize reply ∙ is_reply)),
    )

accepted : (pkt : List ℕ) → 236 ≤ length pkt → at pkt 0 ≡ 2 → accept_reply pkt ≡ some pkt
unfolding accept_reply
accepted pkt long h = ground (arith, long, h)

-- Where a reply goes that comes back to the relay.
abbrev pub client_of : Packet → Ip
client_of p =
    if broadcast_requested p
    then broadcast_ip
    else (if is_unspecified (or_zero p.yiaddr) then broadcast_ip else or_zero p.yiaddr)

client_address_by :
    (pkt : List ℕ) (loud unset : Bool)
    → not (uint16_at pkt 10 / 32768 % 2 == 0) ≡ loud
    → is_zero (take 4 (drop 16 pkt)) ≡ unset
    → client_address pkt
      ≡ (if loud then broadcast_ip else (if unset then broadcast_ip else ip_at pkt 16))
unfolding client_address
client_address_by pkt loud unset h k = rw (h, k) refl

flags_back : (v : ℕ) → v < 65536 → v / 256 % 256 * 256 + v % 256 ≡ v
flags_back v h = omega arith

client_address-layout :
    (p : Packet) (rest : List ℕ) → p.flags < 65536 → client_address (layout p rest) ≡ client_of p
unfolding uint16_at at ip_at broadcast_requested
client_address-layout p rest small =
    client_address_by (layout p rest) (broadcast_requested p) (is_unspecified (or_zero p.yiaddr))
      (ap (λ k. not (k / 32768 % 2 == 0)) (flags_back p.flags small))
      (is_zero-is_unspecified (or_zero p.yiaddr))

-- The bytes of a reply whose fields fit the wire are accepted by the relay unchanged, and go to
-- the broadcast address if the packet asks for a broadcast or offers no address, and to the
-- address that it offers otherwise.
pub accept_reply-serialize :
    (p : Packet)
    → IsPacket p
    → p.op ≡ 2
    → (accept_reply (serialize p) ≡ some (serialize p))
      × (client_address (serialize p) ≡ client_of p)
accept_reply-serialize p w is_reply = (
  accepted (serialize p) (rw (serialize-layout p) (omega (arith, long_enough p w)))
      (at-serialize p ∙ is_reply),
  ap client_address (serialize-layout p)
      ∙ client_address-layout p (padded p ++ serialize_options p.options) w.flags_fits,
)
