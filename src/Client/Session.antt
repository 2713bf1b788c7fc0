-- ===== src/Client/Session.antt =====
-- The scenarios of the client against the server, from the client's flags to the server's leases.
use mydhcp.Common.{
  sym, Result, ℕ, ◌+◌, ◌*◌, ◌/◌, ◌%◌, ◌<◌, ◌≡◌, ap, ◌∙◌, List, [], Option, some, none, true, length,
  text_eq, ok, nat_eq,
}
use mydhcp.Common.Maps.{lookup}
use mydhcp.Lease.{Lease, State}
use mydhcp.Net.{Ip, ip_eq}
use mydhcp.Net.Cidr.{contains}
use mydhcp.Store.Ops.{get, first}
use mydhcp.Subnet.{Entry, subnet_for_ip}
use mydhcp.Subnet.Sound.{IsSound}
use mydhcp.Text.{hex}
use mydhcp.Ztp.Defs.{Ztp}
use mydhcp.Dhcp.Packet.RoundTrip.{on_wire}
use mydhcp.Dhcp.Handler.{static_ip}
use mydhcp.Dhcp.Server.{lookup_ztp}
use mydhcp.Client.{build_discover, lease_time}
use mydhcp.Client.World.{Failure, Client, bind_ok}
use mydhcp.Client.Wire.{second_served}
use mydhcp.Client.Network.{AreStrange, Net, network}
use mydhcp.Client.Scenarios.{Report, bound, must_discover, must_request, run_dora}
use mydhcp.Client.Steps.{first_net, second_net, exchange_lem}

-- The client is at the server's address on an idle socket.
module _ (server_ip : Ip) (z : Option Ztp) (time : ℕ → ℕ) (others : ℕ → List (List ℕ))
    (rand : ℕ → ℕ) (c : Client) (start : Net) (req_ip : Option Ip) (vendor : List ℕ) where
  abbrev pub dora : Net × Result Failure Report
  dora = run_dora (network server_ip z time others rand) c (some server_ip) req_ip vendor start

  -- The scenario ends well with an address and the lease time that the subnet's configuration has,
  -- in whole seconds, and the subnet's store then has the address bound to the client.
  pub record IsLeased (e : Entry) (ip : Ip) (final : Net) : Type 0 where
    pub ends :
        dora
        ≡ (final, ok (bound (some ip) (e.cfg.lease_time / 1000000000 % 4294967296 * 1000000000)))
    pub entry : Entry
    pub found : subnet_for_ip final.subnets (some server_ip) ≡ some entry
    pub lease : Lease
    pub held : get entry.mem ip ≡ some lease
    pub mine : lease.client_id ≡ hex c.mac
    pub is_bound : lease.state ≡ State.bound
    pub until : lease.expires_at ≡ time (start.count + 1) + e.mem.lease_time

  -- The client sends to the server's address from an idle socket, and nothing else that arrives is
  -- a reply with its transaction id. The subnets are apart with well-formed stores; the subnet
  -- that has the server's address has an address in its pool and fewer than 64 DNS addresses; no
  -- static address is recorded for the client; and the client's packets fit the wire. Then the
  -- scenario dora ends with an address and the configured lease time in whole seconds modulo 2 ^
  -- 32, and behind it the subnet that has the server's address holds that address as bound to the
  -- client until the REQUEST's time plus the store's lease time.
  pub run_dora_leases :
      (name : List ℕ) (e : Entry) (free : Ip)
      → c.server_addr ≡ server_ip
      → start.inbox ≡ []
      → ((n : ℕ) → AreStrange c.xid (others n))
      → IsSound start.subnets
      → lookup name start.subnets ≡ some e
      → contains e.cfg.network server_ip ≡ true
      → first e.mem.available ≡ some free
      → static_ip (lookup_ztp z (build_discover c.mac c.xid req_ip vendor)).0 ≡ none
      → length c.mac ≡ 6
      → c.xid < 4294967296
      → length vendor < 256
      → length e.cfg.dns < 64
      → (ip : Ip) × (final : Net) × IsLeased e ip final
  unfolding run_dora
  run_dora_leases name e free here idle strange sound held inside pool dynamic six small short few =
      let (ip, offer, ack, x) =
        exchange_lem server_ip z time others rand c start req_ip vendor name e free here idle
          strange sound held inside pool dynamic six small short few in
      let world = network server_ip z time others rand in
      let s1 = first_net server_ip z time others rand c start req_ip vendor in
      let s2 = second_net server_ip z time others rand c start req_ip vendor (some ip) in
      let served =
        second_served server_ip z start.subnets c.mac c.xid req_ip vendor (time start.count)
          (time (start.count + 1)) in
      let b = x.served in
      (
        ip,
        s2,
        record {
          ends =
              bind_ok (must_discover world c req_ip vendor) _ start s1 (on_wire offer)
                x.discovers_lem
              ∙ bind_ok (must_request world c (on_wire offer).yiaddr (some server_ip)) _ s1 s2
                  (on_wire ack) x.requests_lem
              ∙ ap (λ a. (s2, ok (bound a (lease_time (on_wire ack))))) x.ack_ip
              ∙ ap (λ t. (s2, ok (bound (some ip) t))) x.ack_time;
          entry = b.entry;
          found =
              ap (λ o. subnet_for_ip (served o).subnets (some server_ip)) (sym b.offered_ip)
              ∙ b.found;
          lease = b.lease;
          held = b.held;
          mine = b.mine;
          is_bound = b.is_bound;
          until = b.until;
        },
      )
