-- ===== src/Client/Steps.antt =====
-- The first steps of the client's scenarios against the server.
use mydhcp.Common.{
  sym, ℕ, ◌+◌, ◌*◌, ◌/◌, ◌%◌, ◌<◌, ◌≡◌, refl, ap, ◌∙◌, List, [], Option, some, none, true, arith,
  length, text_eq, ok, nat_eq,
}
use mydhcp.Common.Maps.{lookup}
use mydhcp.Net.{Ip, ip_eq}
use mydhcp.Net.Cidr.{contains}
use mydhcp.Store.Ops.{first}
use mydhcp.Subnet.{Entry}
use mydhcp.Subnet.Sound.{IsSound}
use mydhcp.Ztp.Defs.{Ztp}
use mydhcp.Dhcp.Options.{msg_ack, msg_discover, msg_request, msg_type}
use mydhcp.Dhcp.Packet.{Packet, parse, serialize}
use mydhcp.Dhcp.Packet.Layout.{or_zero}
use mydhcp.Dhcp.Packet.RoundTrip.{on_wire}
use mydhcp.Dhcp.Handler.{static_ip}
use mydhcp.Dhcp.Server.{lookup_ztp}
use mydhcp.Client.{build_discover, build_request, accept_ack, lease_time}
use mydhcp.Client.World.{
  World, Client, Run, ◌>>=◌, ◌>>◌, bind_ok, required, no_offer, no_reply, refused, send, await,
}
use mydhcp.Client.Wire.{dora_serves, to_client, second_served, IsServed}
use mydhcp.Client.Network.{AreStrange, Net, network, serve, answered, send_lem, await_answer}
use mydhcp.Client.Reads.{replies_read}
use mydhcp.Client.Scenarios.{must_discover, must_request}

accept_ack_of_type : (p : Packet) → msg_type p.options ≡ some msg_ack → accept_ack p ≡ some p
unfolding accept_ack
accept_ack_of_type p h = ground (arith, h)

-- A client at the server's address on an idle socket. Nothing that arrives besides the server's
-- answers is a reply with the client's transaction id.
module _ (server_ip : Ip) (z : Option Ztp) (time : ℕ → ℕ) (others : ℕ → List (List ℕ))
    (rand : ℕ → ℕ) (c : Client) (here : c.server_addr ≡ server_ip)
    (strange : (n : ℕ) → AreStrange c.xid (others n)) where
  abbrev world : World
  world = network server_ip z time others rand

  -- A write is served, and the answer is what the client's recv takes.
  exchange :
      {B : Type 0} (s : Net) (kind : ℕ) (p offer r : Packet) (k : Option Packet → Run Net B)
      → s.inbox ≡ []
      → (serve server_ip z time others rand s (serialize p)).sent ≡ some (to_client offer)
      → parse (serialize offer) ≡ ok r
      → (r.op ≡ 2) × (r.xid ≡ c.xid)
      → (send world c kind p >> (await world c.xid >>= k)) s
        ≡ k (some r) (answered server_ip z time others rand s (serialize p))
  exchange s kind p offer r k idle sent read passes =
      bind_ok (send world c kind p) (λ _. await world c.xid >>= k) s _ tt
        (send_lem server_ip z time others rand c kind p s here)
      ∙ bind_ok (await world c.xid) k _ _ (some r) (
          await_answer server_ip z time others rand s (serialize p) offer r c.xid idle
            (strange s.count) sent read passes)

  discovers :
      (s : Net) (req_ip : Option Ip) (vendor : List ℕ) (offer r : Packet)
      → s.inbox ≡ []
      → (serve server_ip z time others rand s
          (serialize (build_discover c.mac c.xid req_ip vendor))).sent
        ≡ some (to_client offer)
      → parse (serialize offer) ≡ ok r
      → (r.op ≡ 2) × (r.xid ≡ c.xid)
      → must_discover world c req_ip vendor s ≡ (
        answered server_ip z time others rand s
            (serialize (build_discover c.mac c.xid req_ip vendor)),
        ok r,
      )
  unfolding must_discover
  discovers s req_ip vendor offer r idle sent read passes =
      exchange s msg_discover (build_discover c.mac c.xid req_ip vendor) offer r (required no_offer)
        idle sent read passes

  requests :
      (s : Net) (ip : Option Ip) (ack r : Packet)
      → s.inbox ≡ []
      → (serve server_ip z time others rand s
          (serialize (build_request c.mac c.xid (some server_ip) ip []))).sent
        ≡ some (to_client ack)
      → parse (serialize ack) ≡ ok r
      → (r.op ≡ 2) × (r.xid ≡ c.xid)
      → msg_type r.options ≡ some msg_ack
      → must_request world c ip (some server_ip) s ≡ (
        answered server_ip z time others rand s
            (serialize (build_request c.mac c.xid (some server_ip) ip [])),
        ok r,
      )
  unfolding must_request
  requests s ip ack r idle sent read passes kind =
      exchange s msg_request (build_request c.mac c.xid (some server_ip) ip []) ack r
        (λ reply. required no_reply reply >>= λ p. required refused (accept_ack p)) idle sent read
        passes
      ∙ rw (accept_ack_of_type r kind) refl

pub wire_address : (o : Option Ip) (ip : Ip) → o ≡ some ip → some (or_zero o) ≡ some ip
wire_address o ip h = ap (λ a. some (or_zero a)) h

-- The network and the replies of an exchange that goes well.
module _ (server_ip : Ip) (z : Option Ztp) (time : ℕ → ℕ) (others : ℕ → List (List ℕ))
    (rand : ℕ → ℕ) (c : Client) (start : Net) (req_ip : Option Ip) (vendor : List ℕ) where
  -- The network behind the DISCOVER, and that behind the REQUEST for an address.
  abbrev pub first_net : Net
  first_net =
      answered server_ip z time others rand start
        (serialize (build_discover c.mac c.xid req_ip vendor))

  abbrev pub second_net : Option Ip → Net
  second_net ip =
      answered server_ip z time others rand first_net
        (serialize (build_request c.mac c.xid (some server_ip) ip []))

  -- The client has had an OFFER and an ACK of an address, and the server has served both messages.
  pub record IsExchanged (e : Entry) (ip : Ip) (offer ack : Packet) : Type 0 where
    pub served :
        IsServed server_ip z start.subnets c.mac c.xid req_ip vendor
          (time start.count)
          (time (start.count + 1))
          e
          ip
          offer
          ack
    pub discovers_lem :
        must_discover (network server_ip z time others rand) c req_ip vendor start
        ≡ (first_net, ok (on_wire offer))
    pub requests_lem :
        must_request
          (network server_ip z time others rand)
          c
          (on_wire offer).yiaddr
          (some server_ip)
          first_net
        ≡ (second_net (some ip), ok (on_wire ack))
    pub ack_ip : (on_wire ack).yiaddr ≡ some ip
    pub ack_time :
        lease_time (on_wire ack) ≡ e.cfg.lease_time / 1000000000 % 4294967296 * 1000000000

  -- The first two steps of every scenario but discover.
  pub exchange_lem :
      (name : List ℕ) (e : Entry) (free : Ip)
      → c.server_addr ≡ server_ip
      → start.inbox ≡ []
      → ((n : ℕ) → AreStrange c.xid (others n))
      → IsSound start.subnets
      → lookup name start.subnets ≡ some e
      → contains e.cfg.network server_ip ≡ true
      → first e.mem.available ≡ some free
      → static_ip (lookup_ztp z (build_discover c.mac c.xid req_ip vendor)).0 ≡ none
      → length c.mac ≡ 6
      → c.xid < 4294967296
      → length vendor < 256
      → length e.cfg.dns < 64
      → (ip : Ip) × (offer : Packet) × (ack : Packet) × IsExchanged e ip offer ack
  exchange_lem name e free here idle strange sound held inside pool dynamic six small short few =
      let now = time start.count in
      let later = time (start.count + 1) in
      let (ip, offer, ack, b) =
        dora_serves server_ip z start.subnets c.mac c.xid req_ip vendor now later name e free sound
          held inside pool dynamic six small short in
      let (offer_reads, ack_reads, time_told) =
        replies_read server_ip z start.subnets c.mac c.xid req_ip vendor now later e ip offer ack
          six small short few b in
      let offered_there = wire_address offer.yiaddr ip b.offered_ip in
      let asked = offered_there ∙ sym b.offered_ip in
      let served = second_served server_ip z start.subnets c.mac c.xid req_ip vendor now later in
      (
        ip,
        offer,
        ack,
        record {
          served = b;
          discovers_lem =
              discovers server_ip z time others rand c here strange start req_ip vendor offer
                (on_wire offer) idle b.offered offer_reads b.offer_passes;
          requests_lem =
              requests server_ip z time others rand c here strange first_net (on_wire offer).yiaddr
                ack (on_wire ack) refl (ap (λ o. (served o).sent) asked ∙ b.acked) ack_reads
                b.ack_passes b.ack_type
              ∙ ap (λ o. (second_net o, ok (on_wire ack))) offered_there;
          ack_ip = wire_address ack.yiaddr ip b.acked_ip;
          ack_time = time_told;
        },
      )
