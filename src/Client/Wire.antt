-- ===== src/Client/Wire.antt =====
-- The client's exchange with the server, from the bytes that it sends to the bytes that it gets.
use mydhcp.Common.{
  ℕ, ◌+◌, ◌<◌, ◌≡◌, refl, ap, ◌∙◌, List, [], Option, some, none, true, length, text_eq, nat_eq,
}
use mydhcp.Common.Maps.{lookup}
use mydhcp.Lease.{Lease, bound}
use mydhcp.Net.{Ip, ip_eq}
use mydhcp.Net.Cidr.{contains}
use mydhcp.Store.Ops.{get, first}
use mydhcp.Subnet.{Entry, Manager, subnet_for_ip}
use mydhcp.Subnet.Order.{subnet_for_ip_lem}
use mydhcp.Subnet.Sound.{IsSound, found-IsValid}
use mydhcp.Text.{hex}
use mydhcp.Ztp.Defs.{Ztp}
use mydhcp.Dhcp.Options.{msg_offer, msg_ack, msg_type}
use mydhcp.Dhcp.Packet.{Packet, serialize}
use mydhcp.Dhcp.Packet.RoundTrip.{on_wire}
use mydhcp.Dhcp.Handler.{static_ip}
use mydhcp.Dhcp.Server.{
  Datagram, Served, handle_packet, lookup_ztp, broadcast_ip, destination, send_reply,
}
use mydhcp.Dhcp.Server.Routing.{found-Serves, outcome, sent_for}
use mydhcp.Client.{client_packet, build_discover, build_request}
use mydhcp.Client.Exchange.{exchange_binds}
use mydhcp.Client.Packets.{
  request, request-IsPacket, discover-IsPacket, messages-AreMessages, same_device, same_chaddr,
  discover-address, request-address, discover-destination, request-destination,
}

-- A datagram to the client, which has no address yet.
abbrev pub to_client : Packet → Datagram
to_client p = record { address = broadcast_ip; port = 68; payload = serialize p }

sent_to_client :
    (req : Packet) (reply : Option Packet) (p : Packet)
    → destination req ≡ (broadcast_ip, 68)
    → reply ≡ some p
    → sent_for req reply ≡ some (to_client p)
unfolding send_reply
sent_to_client req reply p d h = rw (h, d) refl

-- The bytes of a DISCOVER reach the server, and then those of a REQUEST for an address.
module _ (server_ip : Ip) (z : Option Ztp) (m : Manager) (mac : List ℕ) (xid : ℕ)
    (req_ip : Option Ip) (vendor : List ℕ) (now later : ℕ) where
  abbrev pub first_served : Served
  first_served =
      handle_packet (some server_ip) z m (serialize (build_discover mac xid req_ip vendor)) now

  abbrev pub second_served : Option Ip → Served
  second_served ip =
      handle_packet (some server_ip) z first_served.subnets
        (serialize (build_request mac xid (some server_ip) ip [])) later

  -- What the server reads of the two messages, and the subnet's entry between them.
  abbrev pub discover_read : Packet
  discover_read = on_wire (build_discover mac xid req_ip vendor)

  abbrev pub request_read : Ip → Packet
  request_read ip = on_wire (request mac xid server_ip ip)

  abbrev pub entry_offered : Entry → Entry
  entry_offered e = record e { mem = (outcome (some server_ip) z e discover_read now).store }

  -- The client gets an OFFER and an ACK of one address, which is then bound to it until the lease
  -- time is over.
  pub record IsServed (e : Entry) (ip : Ip) (offer ack : Packet) : Type 0 where
    pub offered : first_served.sent ≡ some (to_client offer)
    pub offer_made : (outcome (some server_ip) z e discover_read now).reply ≡ some offer
    pub offered_ip : offer.yiaddr ≡ some ip
    pub offer_type : msg_type offer.options ≡ some msg_offer
    pub offer_passes : (offer.op ≡ 2) × (offer.xid ≡ xid)
    pub acked : (second_served offer.yiaddr).sent ≡ some (to_client ack)
    pub ack_made :
        (outcome (some server_ip) z (entry_offered e) (request_read ip) later).reply ≡ some ack
    pub acked_ip : ack.yiaddr ≡ some ip
    pub ack_type : msg_type ack.options ≡ some msg_ack
    pub ack_passes : (ack.op ≡ 2) × (ack.xid ≡ xid)
    pub entry : Entry
    pub left : entry ≡ record (entry_offered e) {
      mem = (outcome (some server_ip) z (entry_offered e) (request_read ip) later).store;
    }
    pub found : subnet_for_ip (second_served offer.yiaddr).subnets (some server_ip) ≡ some entry
    pub lease : Lease
    pub held : get entry.mem ip ≡ some lease
    pub mine : lease.client_id ≡ hex mac
    pub is_bound : lease.state ≡ bound
    pub until : lease.expires_at ≡ later + e.mem.lease_time

  -- The subnets are apart with well-formed stores, the subnet that has the server's address has an
  -- address in its pool, and no static address is recorded for the client, whose packets fit the
  -- wire. Then the bytes of its DISCOVER make the server broadcast to port 68 the bytes of an
  -- OFFER, and the bytes of its REQUEST for the offered address, sent next, those of an ACK of
  -- that address, both replies with its transaction id; that subnet then holds the address as
  -- bound to the client until the REQUEST's time plus the store's lease time.
  pub dora_serves :
      (name : List ℕ) (e : Entry) (free : Ip)
      → IsSound m
      → lookup name m ≡ some e
      → contains e.cfg.network server_ip ≡ true
      → first e.mem.available ≡ some free
      → static_ip (lookup_ztp z (build_discover mac xid req_ip vendor)).0 ≡ none
      → length mac ≡ 6
      → xid < 4294967296
      → length vendor < 256
      → (ip : Ip) × (offer : Packet) × (ack : Packet) × IsServed e ip offer ack
  dora_serves name e free sound held inside pool dynamic six small short =
      let disc = build_discover mac xid req_ip vendor in
      let asks = λ (ip : Ip). request mac xid server_ip ip in
      let here = subnet_for_ip_lem m name e server_ip sound.apart held inside in
      let (left, sent, _) =
        found-Serves (some server_ip) z m disc now e server_ip
          (discover-IsPacket mac xid req_ip vendor six small short)
          (unfold build_discover client_packet in refl)
          (discover-address mac xid req_ip vendor server_ip) here in
      let (ip, offer, ack, b) =
        exchange_binds server_ip (hex mac) xid (on_wire disc) (λ a. on_wire (asks a)) e.cfg e.mem
          (lookup_ztp z (on_wire disc)).0 (lookup_ztp z (on_wire disc)).1
          (λ a. (lookup_ztp z (on_wire (asks a))).0) (λ a. (lookup_ztp z (on_wire (asks a))).1) now
          later free (messages-AreMessages server_ip mac xid req_ip vendor)
          (found-IsValid m (some server_ip) e sound.stores here) pool
          (ap static_ip (same_device z (on_wire disc) disc refl) ∙ dynamic)
          (λ a.
            ap static_ip (
              same_device z (on_wire (asks a)) disc (same_chaddr mac xid req_ip vendor server_ip a))
            ∙ dynamic) in
      let (left', sent', _) =
        found-Serves (some server_ip) z first_served.subnets (asks ip) later _ server_ip
          (request-IsPacket mac xid server_ip ip six small)
          (unfold build_request client_packet in refl) (request-address mac xid server_ip ip)
          left in
      let same = ap second_served b.offered_ip in
      (
        ip,
        offer,
        ack,
        record {
          offered =
              sent
              ∙ sent_to_client (on_wire disc) _ offer (discover-destination mac xid req_ip vendor)
                  b.offered_reply;
          offer_made = b.offered_reply;
          offered_ip = b.offered_ip;
          offer_type = b.offer_type;
          offer_passes = b.offer_passes;
          acked =
              ap (λ (v : Served). v.sent) same
              ∙ (sent'
                  ∙ sent_to_client (on_wire (asks ip)) _ ack
                      (request-destination mac xid server_ip ip) b.acked_reply);
          ack_made = b.acked_reply;
          acked_ip = b.acked_ip;
          ack_type = b.ack_type;
          ack_passes = b.ack_passes;
          entry = _;
          left = refl;
          found = ap (λ (v : Served). subnet_for_ip v.subnets (some server_ip)) same ∙ left';
          lease = b.lease;
          held = b.held;
          mine = b.mine;
          is_bound = b.is_bound;
          until = b.until;
        },
      )
