-- ===== src/Client/Return.antt =====
-- The scenario release against the server: a new client gets an address and gives it back.
use mydhcp.Common.{
  Result, ℕ, ◌+◌, ◌<◌, ◌≡◌, refl, ap, sym, subst, ◌∙◌, List, [], Option, some, none, true, false,
  length, text_eq, ok, nat_eq,
}
use mydhcp.Common.Maps.{lookup}
use mydhcp.Lease.{Lease}
use mydhcp.Net.{Ip, ip_eq}
use mydhcp.Net.Cidr.{contains}
use mydhcp.Store.Defs.{Store}
use mydhcp.Store.Ops.{get, get_by_client, first, allocate, renew, release, next_available}
use mydhcp.Store.Calls.{run, step}
use mydhcp.Store.Table.{table}
use mydhcp.Store.Table.Cycle.{table-cycle}
use mydhcp.Store.Invariant.{IsValid}
use mydhcp.Subnet.{Entry, Manager, subnet_for_ip, is_unspecified}
use mydhcp.Subnet.Order.{subnet_for_ip_lem}
use mydhcp.Subnet.Sound.{IsSound, found-IsValid}
use mydhcp.Text.{hex}
use mydhcp.Ztp.Defs.{Ztp}
use mydhcp.Dhcp.Options.{msg_release}
use mydhcp.Dhcp.Packet.{Packet, serialize}
use mydhcp.Dhcp.Packet.RoundTrip.{on_wire}
use mydhcp.Dhcp.Handler.{Outcome, static_ip, not_static, for_other_server}
use mydhcp.Dhcp.Handler.Newcomer.{discovered-store, yiaddr-discovered, handle_request-renew}
use mydhcp.Dhcp.Server.{lookup_ztp, handle_packet}
use mydhcp.Dhcp.Server.Routing.{found-Serves, outcome}
use mydhcp.Dhcp.Server.Sound.{handle_packet-IsSound}
use mydhcp.Client.{client_packet, build_discover, build_release}
use mydhcp.Client.Exchange.{dispatch-discover, dispatch-request, same_server, allowed}
use mydhcp.Client.Packets.{
  messages-AreMessages, requested_ip-build_discover, same_device, same_chaddr, request,
}
use mydhcp.Client.Release.{
  release-IsFreed, dispatch-release, message, msg_type-message, client_id-message, message-IsPacket,
  message-address, message-ciaddr,
}
use mydhcp.Client.World.{Failure, Client, bind_ok, send, ◌>>◌, done}
use mydhcp.Client.Network.{AreStrange, Net, network, arrive, send_lem}
use mydhcp.Client.Scenarios.{Report, released, must_discover, must_request, run_release}
use mydhcp.Client.Steps.{first_net, second_net, IsExchanged, exchange_lem}
use mydhcp.Client.Wire.{second_served}

-- A client that has no lease, no static address and asks for no address.
module _ (server_ip : Ip) (z : Option Ztp) (mac : List ℕ) (xid : ℕ) (vendor : List ℕ) (e : Entry)
    (free : Ip) (now later last : ℕ) (v : IsValid e.mem) (pool : first e.mem.available ≡ some free)
    (new : get_by_client e.mem (hex mac) ≡ none)
    (dynamic : static_ip (lookup_ztp z (build_discover mac xid none vendor)).0 ≡ none) where
  -- The store behind the DISCOVER, and behind the REQUEST.
  abbrev offered_mem : Store
  offered_mem =
      (outcome (some server_ip) z e (on_wire (build_discover mac xid none vendor)) now).store

  abbrev bound_mem : Store
  bound_mem =
      (outcome (some server_ip) z (record e { mem = offered_mem })
        (on_wire (request mac xid server_ip free)) later).store

  dynamic_disc : static_ip (lookup_ztp z (on_wire (build_discover mac xid none vendor))).0 ≡ none
  dynamic_disc =
      ap static_ip (
        same_device z (on_wire (build_discover mac xid none vendor))
          (build_discover mac xid none vendor) refl)
      ∙ dynamic

  offered_mem-allocate : offered_mem ≡ (allocate (next_available e.mem).0 (hex mac) free now).0
  offered_mem-allocate =
      let pkt = on_wire (build_discover mac xid none vendor) in
      let are = messages-AreMessages server_ip mac xid none vendor in
      let device = (lookup_ztp z pkt).0 in
      let profile = (lookup_ztp z pkt).1 in
      ap (λ (o : Outcome). o.store)
        (dispatch-discover (some server_ip) pkt e.cfg e.mem device profile now are.disc_type)
      ∙ discovered-store (some server_ip) pkt e.cfg e.mem device profile now free v pool
          dynamic_disc (ap (get_by_client e.mem) are.disc_client ∙ new)
          (requested_ip-build_discover mac xid vendor)
      ∙ ap (λ id. (allocate (next_available e.mem).0 id free now).0) are.disc_client

  bound_mem-renew : bound_mem ≡ (renew offered_mem (hex mac) free later).0
  bound_mem-renew =
      let pkt = on_wire (request mac xid server_ip free) in
      let are = messages-AreMessages server_ip mac xid none vendor in
      let device = (lookup_ztp z pkt).0 in
      let profile = (lookup_ztp z pkt).1 in
      ap (λ (o : Outcome). o.store)
        (dispatch-request (some server_ip) pkt e.cfg offered_mem device profile later
          (are.req_type free))
      ∙ handle_request-renew (some server_ip) pkt e.cfg offered_mem device profile later free
          (ap (λ id. for_other_server id (some server_ip)) (are.req_server free)
            ∙ same_server server_ip)
          (are.req_wants free)
          (ap (λ a. not_static a free)
              (ap static_ip (
                  same_device z pkt (build_discover mac xid none vendor)
                    (same_chaddr mac xid none vendor server_ip free))
                ∙ dynamic)
            ∙ allowed free)
      ∙ ap (λ id. (renew offered_mem id free later).0) (are.req_client free)

  table-returned : table (release bound_mem (hex mac) free).0 ≡ table e.mem
  unfolding run step
  table-returned =
      ap (λ t. table (release t (hex mac) free).0)
        (bound_mem-renew ∙ ap (λ t. (renew t (hex mac) free later).0) offered_mem-allocate)
      ∙ table-cycle e.mem (hex mac) free now later v new pool

  -- The offer is of the pool's next address.
  offer_address :
      (offer : Packet)
      → (outcome (some server_ip) z e (on_wire (build_discover mac xid none vendor)) now).reply
        ≡ some offer
      → offer.yiaddr ≡ some free
  offer_address offer made =
      let pkt = on_wire (build_discover mac xid none vendor) in
      let are = messages-AreMessages server_ip mac xid none vendor in
      let device = (lookup_ztp z pkt).0 in
      let profile = (lookup_ztp z pkt).1 in
      yiaddr-discovered (some server_ip) pkt e.cfg e.mem device profile now free v pool dynamic_disc
        (ap (get_by_client e.mem) are.disc_client ∙ new)
        (requested_ip-build_discover mac xid vendor) offer
        (ap (λ (o : Outcome). o.reply)
            (sym
              (dispatch-discover (some server_ip) pkt e.cfg e.mem device profile now are.disc_type))
          ∙ made)

  -- The RELEASE, where the subnets are those behind the REQUEST.
  returned_entry :
      (m : Manager) (entry : Entry) (l : Lease)
      → IsSound m
      → subnet_for_ip m (some server_ip) ≡ some entry
      → entry ≡ record e { mem = bound_mem }
      → get entry.mem free ≡ some l
      → l.client_id ≡ hex mac
      → is_unspecified free ≡ false
      → length mac ≡ 6
      → xid < 4294967296
      → (after : Store) × (subnet_for_ip
            (handle_packet
              (some server_ip)
              z
              m
              (serialize (message mac xid server_ip free))
              last).subnets
            (some server_ip)
          ≡ some (record e { mem = after }))
        × (table after ≡ table e.mem)
  returned_entry m entry l sound here same held mine real six small =
      let pkt = on_wire (message mac xid server_ip free) in
      let (left, _, _) =
        found-Serves (some server_ip) z m (message mac xid server_ip free) last entry server_ip
          (message-IsPacket mac xid server_ip free six small)
          (unfold build_release client_packet in refl) (message-address mac xid server_ip free)
          here in
      let (done, _) =
        release-IsFreed entry.mem (hex mac) free l
          (found-IsValid m (some server_ip) entry sound.stores here) held mine in
      let (kept, _) =
        dispatch-release (some server_ip) pkt (hex mac) free entry.cfg entry.mem
          (lookup_ztp z pkt).0 (lookup_ztp z pkt).1 last (msg_type-message mac xid server_ip free)
          (client_id-message mac xid server_ip free) (message-ciaddr mac xid server_ip free) real
          done in
      let after = (outcome (some server_ip) z entry pkt last).store in
      (
        after,
        left ∙ ap (λ (x : Entry). some (record x { mem = after })) same,
        ap table kept
            ∙ ap (λ (x : Entry). table (release x.mem (hex mac) free).0) same
            ∙ table-returned,
      )

module _ (server_ip : Ip) (z : Option Ztp) (time : ℕ → ℕ) (others : ℕ → List (List ℕ))
    (rand : ℕ → ℕ) (c : Client) (start : Net) (vendor : List ℕ) where
  abbrev pub returned : Net × Result Failure Report
  returned = run_release (network server_ip z time others rand) c (some server_ip) vendor start

  -- The scenario ends well with this address, and the subnet's store then has the leases, the
  -- current addresses of the clients and the pool that it had.
  pub record IsReturned (e : Entry) (ip : Ip) (final : Net) (after : Store) : Type 0 where
    pub ends : returned ≡ (final, ok (released (some ip)))
    pub found : subnet_for_ip final.subnets (some server_ip) ≡ some (record e { mem = after })
    pub same : table after ≡ table e.mem

  -- The network behind the exchange for an address, and behind its release.
  abbrev leased_net : Ip → Net
  leased_net ip = second_net server_ip z time others rand c start none vendor (some ip)

  abbrev final_net : Ip → Net
  final_net ip =
      arrive server_ip z time others rand (leased_net ip)
        (serialize (build_release c.mac c.xid (some server_ip) (some ip)))

  ends_lem :
      (e : Entry) (ip : Ip) (offer ack : Packet)
      → c.server_addr ≡ server_ip
      → IsExchanged server_ip z time others rand c start none vendor e ip offer ack
      → returned ≡ (final_net ip, ok (released (some ip)))
  unfolding run_release
  ends_lem e ip offer ack here x =
      let world = network server_ip z time others rand in
      let s1 = first_net server_ip z time others rand c start none vendor in
      let gives_back = λ (a : Option Ip). build_release c.mac c.xid (some server_ip) a in
      bind_ok (must_discover world c none vendor) _ start s1 (on_wire offer) x.discovers_lem
      ∙ bind_ok (must_request world c (on_wire offer).yiaddr (some server_ip)) _ s1 (leased_net ip)
          (on_wire ack) x.requests_lem
      ∙ ap (λ a. (send world c msg_release (gives_back a) >> done (released a)) (leased_net ip))
          x.ack_ip
      ∙ bind_ok (send world c msg_release (gives_back (some ip))) (λ _. done (released (some ip)))
          (leased_net ip) (final_net ip) tt
          (send_lem server_ip z time others rand c msg_release (gives_back (some ip))
            (leased_net ip) here)

  -- The client sends to the server's address from an idle socket, and nothing else that arrives is
  -- a reply with its transaction id. The subnets are apart with well-formed stores; in the subnet
  -- that has the server's address the client has no lease, the pool's next address is not 0.0.0.0,
  -- and there are fewer than 64 DNS addresses; no static address is recorded for the client; and
  -- its packets fit the wire. Then the scenario release ends and reports the pool's next address
  -- as released, and behind it that subnet has the leases, the current addresses of its clients
  -- and the addresses in its pool that it had.
  pub run_release_returns :
      (name : List ℕ) (e : Entry) (free : Ip)
      → c.server_addr ≡ server_ip
      → start.inbox ≡ []
      → ((n : ℕ) → AreStrange c.xid (others n))
      → IsSound start.subnets
      → lookup name start.subnets ≡ some e
      → contains e.cfg.network server_ip ≡ true
      → first e.mem.available ≡ some free
      → is_unspecified free ≡ false
      → get_by_client e.mem (hex c.mac) ≡ none
      → static_ip (lookup_ztp z (build_discover c.mac c.xid none vendor)).0 ≡ none
      → length c.mac ≡ 6
      → c.xid < 4294967296
      → length vendor < 256
      → length e.cfg.dns < 64
      → (final : Net) × (after : Store) × IsReturned e free final after
  run_release_returns name e free here idle strange sound held inside pool real new dynamic six
        small short few =
      let now = time start.count in
      let later = time (start.count + 1) in
      let last = time (start.count + 1 + 1) in
      let v =
        found-IsValid start.subnets (some server_ip) e sound.stores
          (subnet_for_ip_lem start.subnets name e server_ip sound.apart held inside) in
      let (ip, offer, ack, x) =
        exchange_lem server_ip z time others rand c start none vendor name e free here idle strange
          sound held inside pool dynamic six small short few in
      let offers =
        offer_address server_ip z c.mac c.xid vendor e free now later last v pool new dynamic offer
          x.served.offer_made in
      let same_ip : ip ≡ free = cc (x.served.offered_ip, offers) in
      let y =
        subst (λ a. IsExchanged server_ip z time others rand c start none vendor e a offer ack)
          same_ip x in
      let b = y.served in
      let (after, left, same) =
        returned_entry server_ip z c.mac c.xid vendor e free now later last v pool new dynamic
          (leased_net free).subnets b.entry b.lease
          (handle_packet-IsSound (some server_ip) z _ _ later
            (handle_packet-IsSound (some server_ip) z start.subnets _ now sound))
          (ap
              (λ o.
                subnet_for_ip
                  (second_served server_ip z start.subnets c.mac c.xid none vendor now later
                    o).subnets
                  (some server_ip))
              (sym b.offered_ip)
            ∙ b.found)
          b.left b.held b.mine real six small in
      (
        final_net free,
        after,
        record { ends = ends_lem e free offer ack here y; found = left; same = same },
      )
