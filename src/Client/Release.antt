-- ===== src/Client/Release.antt =====
-- The client's RELEASE at the server: the address is in the pool again, and nothing else changes.
use mydhcp.Common.{
  ℕ, ◌<◌, ◌≡◌, refl, sym, ap, ◌∙◌, subst, List, [], ◌∷◌, Option, some, none, true, false, arith,
  count, count-append, count-one, length, ite, ◌=?◌, inl, inr, Option-cases, ok, text_eq, nat_eq,
  ℕ_discrete,
}
use mydhcp.Common.Maps.{lookup, insert}
use mydhcp.Lease.{Lease}
use mydhcp.Net.{Ip, ip_eq, Ip-discrete, uint32_to_ip}
use mydhcp.Net.Cidr.{contains}
use mydhcp.Store.Defs.{Store, leased, circulating}
use mydhcp.Store.Ops.{get, release, give_back}
use mydhcp.Store.View.{get-give_back}
use mydhcp.Store.Invariant.{IsValid}
use mydhcp.Subnet.{Config, Entry, Manager, subnet_for_ip, lookup_address, is_unspecified}
use mydhcp.Subnet.Order.{subnet_for_ip_lem}
use mydhcp.Subnet.Sound.{IsSound, found-IsValid}
use mydhcp.Text.{hex}
use mydhcp.Ztp.Defs.{Ztp, Device, Profile}
use mydhcp.Dhcp.Options.{msg_release, msg_type, options_client_id, first_byte, encode_ip}
use mydhcp.Dhcp.Packet.{Packet, client_id, serialize}
use mydhcp.Dhcp.Packet.RoundTrip.{IsPacket, on_wire}
use mydhcp.Dhcp.Handler.{dispatch, handle_release, specified}
use mydhcp.Dhcp.Server.{Served, handle_packet, lookup_ztp}
use mydhcp.Dhcp.Server.Routing.{found-Serves, outcome, sent_for}
use mydhcp.Client.{client_packet, build_release}

-- A store in which an address is free: once in the pool, and without a lease.
pub record IsFreed (s t : Store) (ip : Ip) : Type 0 where
  pub in_pool : count ip t.available ≡ 1
  pub others : (k : Ip) → get t k ≡ ite (ip =? k) none (get s k)

give_back-IsFreed :
    (s : Store) (ip : Ip) (r : ℕ)
    → IsValid s
    → lookup ip s.by_ip ≡ some r
    → IsFreed s (give_back s ip r ip) ip
give_back-IsFreed s ip r v found = record {
  in_pool =
      unfold give_back circulating leased in
      ground (arith, found, v.exclusive ip, count-append ip s.available (ip ∷ []), count-one ip ip);
  others = λ k. get-give_back s ip k r;
}

pub release-IsFreed :
    (s : Store) (c : List ℕ) (ip : Ip) (l : Lease)
    → IsValid s
    → get s ip ≡ some l
    → l.client_id ≡ c
    → ((release s c ip).1 ≡ ok tt) × IsFreed s (release s c ip).0 ip
unfolding get release
release-IsFreed s c ip l v held mine = elim (Option-cases (lookup ip s.by_ip)) [
  | inl e ↦ absurd (ground (arith, e, held))
  | inr (r, e) ↦
      let left : (release s c ip).0 ≡ give_back s ip r ip =
        ground (arith, e, held, mine, v.keyed ip r) in
      (
        ground (arith, e, held, mine),
        subst (λ t. IsFreed s t ip) (sym left) (give_back-IsFreed s ip r v e),
      )
]

pub dispatch-release :
    (server_ip : Option Ip) (pkt : Packet) (c : List ℕ) (ip : Ip) (cfg : Config) (s : Store)
    (device : Option Device) (profile : Option Profile) (now : ℕ)
    → msg_type pkt.options ≡ some msg_release
    → client_id pkt ≡ c
    → pkt.ciaddr ≡ some ip
    → is_unspecified ip ≡ false
    → (release s c ip).1 ≡ ok tt
    → ((dispatch server_ip pkt cfg s device profile now).store ≡ (release s c ip).0)
      × ((dispatch server_ip pkt cfg s device profile now).reply ≡ none)
unfolding dispatch handle_release specified
dispatch-release server_ip pkt c ip cfg s device profile now kind id own real done =
    (ground (arith, kind, id, own, real, done), ground (arith, kind, id, own, real, done))

module _ (mac : List ℕ) (xid : ℕ) (server_ip ip : Ip) where
  abbrev pub message : Packet
  message = build_release mac xid (some server_ip) (some ip)

  pub msg_type-message : msg_type (on_wire message).options ≡ some msg_release
  unfolding build_release msg_type client_packet lookup insert first_byte ℕ_discrete
  msg_type-message = ground arith

  pub client_id-message : client_id (on_wire message) ≡ hex mac
  unfolding build_release client_id options_client_id client_packet lookup insert ℕ_discrete
  client_id-message = ground arith

  pub message-IsPacket : length mac ≡ 6 → xid < 4294967296 → IsPacket message
  unfolding build_release client_packet lookup insert encode_ip ℕ_discrete
  message-IsPacket six small = record {
    xid_fits = small;
    secs_fits = omega arith;
    flags_fits = omega arith;
    chaddr_length = six;
    chaddr_fits = omega arith;
    sname_length = refl;
    file_length = refl;
    options_fit = ground arith;
  }

  pub message-address : lookup_address (on_wire message).giaddr (some server_ip) ≡ some server_ip
  unfolding build_release client_packet lookup_address is_unspecified uint32_to_ip Ip-discrete
  message-address = refl

  pub message-ciaddr : (on_wire message).ciaddr ≡ some ip
  unfolding build_release client_packet
  message-ciaddr = refl

-- The bytes of a RELEASE for an address that is leased to the client, which is not 0.0.0.0.
module _ (server_ip : Ip) (z : Option Ztp) (m : Manager) (mac : List ℕ) (xid : ℕ) (ip : Ip)
    (now : ℕ) where
  abbrev pub served : Served
  served =
      handle_packet (some server_ip) z m
        (serialize (build_release mac xid (some server_ip) (some ip))) now

  -- The subnets are apart with well-formed stores, the server's address is in a subnet, and that
  -- subnet's store has a lease of the client on an address that is not 0.0.0.0, whatever the
  -- lease's state. The client's hardware address has six bytes, and the transaction id is below 2
  -- ^ 32. Then the bytes of the client's RELEASE are not answered, and behind them the address is
  -- in the subnet's pool exactly once and without a lease, and every other address has the lease
  -- that it had.
  pub release_frees :
      (name : List ℕ) (e : Entry) (l : Lease)
      → IsSound m
      → lookup name m ≡ some e
      → contains e.cfg.network server_ip ≡ true
      → get e.mem ip ≡ some l
      → l.client_id ≡ hex mac
      → is_unspecified ip ≡ false
      → length mac ≡ 6
      → xid < 4294967296
      → (served.sent ≡ none)
        × ((after : Store) × (subnet_for_ip served.subnets (some server_ip)
              ≡ some (record e { mem = after }))
            × IsFreed e.mem after ip)
  release_frees name e l sound held inside leased_to mine real six small =
      let pkt = on_wire (build_release mac xid (some server_ip) (some ip)) in
      let here = subnet_for_ip_lem m name e server_ip sound.apart held inside in
      let (left, sent, _) =
        found-Serves (some server_ip) z m (build_release mac xid (some server_ip) (some ip)) now e
          server_ip (message-IsPacket mac xid server_ip ip six small)
          (unfold build_release client_packet in refl) (message-address mac xid server_ip ip)
          here in
      let (done, freed) =
        release-IsFreed e.mem (hex mac) ip l (found-IsValid m (some server_ip) e sound.stores here)
          leased_to mine in
      let (kept, quiet) =
        dispatch-release (some server_ip) pkt (hex mac) ip e.cfg e.mem (lookup_ztp z pkt).0
          (lookup_ztp z pkt).1 now (msg_type-message mac xid server_ip ip)
          (client_id-message mac xid server_ip ip) (message-ciaddr mac xid server_ip ip) real
          done in
      (
        sent ∙ ap (sent_for pkt) quiet,
        (
          (outcome (some server_ip) z e pkt now).store,
          left,
          subst (λ t. IsFreed e.mem t ip) (sym kept) freed,
        ),
      )
