-- ===== src/Dhcp/Handler/Forms.antt =====
-- The two forms of a reply to a DISCOVER or a REQUEST: a NAK, and the reply of buildReply with the
-- boot options.
use mydhcp.Common.{ℕ, ◌≡◌, subst, Option, some, arith, Option-cases, Result-cases, inl, inr}
use mydhcp.Net.{Ip}
use mydhcp.Store.Defs.{Store}
use mydhcp.Store.Ops.{renew}
use mydhcp.Subnet.{Config}
use mydhcp.Ztp.Defs.{Device, Profile}
use mydhcp.Dhcp.Options.{msg_offer, msg_ack}
use mydhcp.Dhcp.Packet.{Packet, client_id}
use mydhcp.Dhcp.Handler.{
  handle_discover, handle_request, grant_request, find_lease, preferred_ip, wanted_ip,
}
use mydhcp.Dhcp.Reply.{build_reply, build_nak, inject_ztp_options}

-- What holds of both forms holds of every such reply.
module _ (P : Packet → Type 0) (server_ip : Option Ip) (pkt : Packet) (cfg : Config)
    (nak : P (build_nak server_ip pkt))
    (leased : (a : Ip) (kind : ℕ) (profile : Option Profile)
      → P (
          inject_ztp_options
            (build_reply server_ip pkt cfg (some a) kind cfg.lease_time)
            server_ip
            pkt.chaddr
            profile)) where
  pub handle_discover_form :
      (s : Store) (device : Option Device) (profile : Option Profile) (now : ℕ) (reply : Packet)
      → (handle_discover server_ip pkt cfg s device profile now).reply ≡ some reply
      → P reply
  unfolding handle_discover
  handle_discover_form s device profile now reply h =
      elim (Option-cases (find_lease s (client_id pkt) (preferred_ip pkt cfg s device) now).1) [
        | inl e ↦ absurd (ground (arith, e, h))
        | inr (l, e) ↦ subst P (ground (arith, e, h)) (leased l.ip msg_offer profile)
      ]

  grant_request_form :
      (s : Store) (profile : Option Profile) (ip : Ip) (now : ℕ) (reply : Packet)
      → (grant_request server_ip pkt cfg s profile ip now).reply ≡ some reply
      → P reply
  unfolding grant_request
  grant_request_form s profile ip now reply h =
      elim (Result-cases (renew s (client_id pkt) ip now).1) [
        | inr (x, e) ↦ subst P (ground (arith, e, h)) nak
        | inl (l, e) ↦ subst P (ground (arith, e, h)) (leased l.ip msg_ack profile)
      ]

  pub handle_request_form :
      (s : Store) (device : Option Device) (profile : Option Profile) (now : ℕ) (reply : Packet)
      → (handle_request server_ip pkt cfg s device profile now).reply ≡ some reply
      → P reply
  unfolding handle_request
  handle_request_form s device profile now reply h =
      let refused : some (build_nak server_ip pkt) ≡ some reply → P reply =
        λ e. subst P (cc (e)) nak in
      elim (Option-cases (wanted_ip pkt)) [
        | inl e ↦ ground (arith, e, h, refused)
        | inr (ip, e) ↦ ground (arith, e, h, refused, grant_request_form s profile ip now reply)
      ]
