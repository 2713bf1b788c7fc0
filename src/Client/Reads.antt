-- ===== src/Client/Reads.antt =====
-- What the client reads of the server's replies.
use mydhcp.Common.{
  sym, ℕ, ◌*◌, ◌/◌, ◌%◌, ◌<◌, ◌≡◌, ap, ◌∙◌, List, Option, some, arith, length, text_eq, ok, nat_eq,
}
use mydhcp.Common.Maps.{lookup}
use mydhcp.Net.{Ip, ip_eq}
use mydhcp.Subnet.{Config, Entry, Manager}
use mydhcp.Ztp.Defs.{Ztp}
use mydhcp.Dhcp.Options.{opt_lease_time, encode_uint32}
use mydhcp.Dhcp.Packet.{Packet, parse, serialize, uint32_at, uint16_at, at}
use mydhcp.Dhcp.Packet.RoundTrip.{on_wire}
use mydhcp.Dhcp.Handler.{Outcome}
use mydhcp.Dhcp.Handler.Fits.{dispatch-parse, on_wire-IsRepeatable}
use mydhcp.Dhcp.Handler.Terms.{told, handle_request-told}
use mydhcp.Dhcp.Server.{lookup_ztp}
use mydhcp.Client.{lease_time}
use mydhcp.Client.Packets.{messages-AreMessages, request-IsPacket, discover-IsPacket}
use mydhcp.Client.Wire.{IsServed, discover_read, request_read, entry_offered}
use mydhcp.Client.Exchange.{dispatch-request}

-- What the client reads from the option of the lease time.
lease_time-told :
    (cfg : Config) (p : Packet)
    → lookup opt_lease_time p.options ≡ told cfg
    → lease_time p ≡ cfg.lease_time / 1000000000 % 4294967296 * 1000000000
unfolding lease_time encode_uint32 uint32_at at uint16_at
lease_time-told cfg p h = ground (arith, h)

module _ (server_ip : Ip) (z : Option Ztp) (m : Manager) (mac : List ℕ) (xid : ℕ)
    (req_ip : Option Ip) (vendor : List ℕ) (now later : ℕ) (e : Entry) (ip : Ip)
    (offer ack : Packet) where
  -- Both replies parse, and the ACK tells the subnet's lease time in whole seconds.
  pub replies_read :
      length mac ≡ 6
      → xid < 4294967296
      → length vendor < 256
      → length e.cfg.dns < 64
      → IsServed server_ip z m mac xid req_ip vendor now later e ip offer ack
      → (parse (serialize offer) ≡ ok (on_wire offer))
        × (parse (serialize ack) ≡ ok (on_wire ack))
        × (lease_time (on_wire ack) ≡ e.cfg.lease_time / 1000000000 % 4294967296 * 1000000000)
  replies_read six small short few b =
      let disc = discover_read server_ip z m mac xid req_ip vendor now later in
      let req = request_read server_ip z m mac xid req_ip vendor now later ip in
      let kind = (messages-AreMessages server_ip mac xid req_ip vendor).req_type ip in
      let middle = (entry_offered server_ip z m mac xid req_ip vendor now later e).mem in
      let (device, profile) = lookup_ztp z req in
      let direct = dispatch-request (some server_ip) req e.cfg middle device profile later kind in
      (
        (dispatch-parse (some server_ip) disc e.cfg
            (on_wire-IsRepeatable _ (discover-IsPacket mac xid req_ip vendor six small short)) few
            e.mem (lookup_ztp z disc).0 (lookup_ztp z disc).1 now offer b.offer_made).1,
        (dispatch-parse (some server_ip) req e.cfg
            (on_wire-IsRepeatable _ (request-IsPacket mac xid server_ip ip six small)) few middle
            device profile later ack b.ack_made).1,
        lease_time-told e.cfg (on_wire ack) (
            handle_request-told (some server_ip) req e.cfg middle device profile later ack
              (ap (λ (o : Outcome). o.reply) (sym direct) ∙ b.ack_made) b.ack_type),
      )
