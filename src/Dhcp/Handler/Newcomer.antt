-- ===== src/Dhcp/Handler/Newcomer.antt =====
-- The messages of a client that has no lease and no static address and asks for none: what the
-- handlers do to the store.
use mydhcp.Common.{ℕ, ◌≡◌, refl, sym, ap, ◌∙◌, Option, some, none, false, arith, text_eq}
use mydhcp.Lease.{Lease, offered, new_lease}
use mydhcp.Net.{Ip}
use mydhcp.Store.Defs.{Store}
use mydhcp.Store.Ops.{allocate, renew, get_by_client, first, next_available, offer}
use mydhcp.Store.Supply.{next_available_lem}
use mydhcp.Store.Invariant.{IsValid}
use mydhcp.Subnet.{Config}
use mydhcp.Ztp.Defs.{Device, Profile}
use mydhcp.Dhcp.Options.{requested_ip, server_id, msg_offer}
use mydhcp.Dhcp.Reply.{build_reply, inject_ztp_options}
use mydhcp.Dhcp.Packet.{Packet, client_id}
use mydhcp.Dhcp.Handler.{
  handle_request, preferred_ip, static_ip, find_lease, current_ip, asked_ip, or_else, try_preferred,
  for_other_server, wanted_ip, not_static,
}
use mydhcp.Dhcp.Handler.Offers.{find_lease_pool, try_pool-some, lease_of_ok}
use mydhcp.Dhcp.Handler.Discover.{
  found, discovered, discover-store, discover-reply, yiaddr-offer_reply,
}
use mydhcp.Dhcp.Handler.Grant.{grant-store}

module _ (server_ip : Option Ip) (pkt : Packet) (cfg : Config) (s : Store) (device : Option Device)
    (profile : Option Profile) (now : ℕ) where
  preferred-none :
      static_ip device ≡ none
      → get_by_client s (client_id pkt) ≡ none
      → requested_ip pkt.options ≡ none
      → preferred_ip pkt cfg s device ≡ none
  unfolding preferred_ip current_ip asked_ip or_else
  preferred-none dynamic new open_ = ground (arith, dynamic, new, open_)

  module _ (free : Ip) (v : IsValid s) (pool : first s.available ≡ some free)
      (dynamic : static_ip device ≡ none) (new : get_by_client s (client_id pkt) ≡ none)
      (asks : requested_ip pkt.options ≡ none) where
    next : (next_available s).1 ≡ some free
    unfolding next_available
    next = pool

    pool_lease : Lease
    pool_lease = offer s (new_lease free (client_id pkt) offered) now

    from_pool :
        found server_ip pkt cfg s device profile now
        ≡ ((allocate (next_available s).0 (client_id pkt) free now).0, some pool_lease)
    unfolding try_preferred pool_lease offer
    from_pool =
        ap (λ o. find_lease s (client_id pkt) o now) (preferred-none dynamic new asks)
        ∙ find_lease_pool s (client_id pkt) none now refl
        ∙ try_pool-some s (client_id pkt) free now next
        ∙ ap (λ r. ((allocate (next_available s).0 (client_id pkt) free now).0, r))
            (lease_of_ok (next_available s).0 (client_id pkt) free now pool_lease
              (next_available_lem s (client_id pkt) free now v next).1)

    -- A DISCOVER allocates the next address of the pool.
    pub discovered-store :
        (discovered server_ip pkt cfg s device profile now).store
        ≡ (allocate (next_available s).0 (client_id pkt) free now).0
    discovered-store =
        discover-store server_ip pkt cfg s device profile now ∙ ap (λ r. r.0) from_pool

    -- That address is offered.
    pub yiaddr-discovered :
        (reply : Packet)
        → (discovered server_ip pkt cfg s device profile now).reply ≡ some reply
        → reply.yiaddr ≡ some free
    unfolding pool_lease offer new_lease
    yiaddr-discovered reply h =
        let made =
          discover-reply server_ip pkt cfg s device profile now pool_lease
            (ap (λ r. r.1) from_pool) in
        let same : inject_ztp_options
              (build_reply server_ip pkt cfg (some free) msg_offer cfg.lease_time) server_ip
              pkt.chaddr profile
            ≡ reply =
          cc (made, h) in
        ap (λ (p : Packet). p.yiaddr) (sym same)
        ∙ yiaddr-offer_reply server_ip pkt cfg s device profile now pool_lease profile

  -- A REQUEST that is not refused renews the lease.
  pub handle_request-renew :
      (ip : Ip)
      → for_other_server (server_id pkt.options) server_ip ≡ false
      → wanted_ip pkt ≡ some ip
      → not_static (static_ip device) ip ≡ false
      → (handle_request server_ip pkt cfg s device profile now).store
        ≡ (renew s (client_id pkt) ip now).0
  unfolding handle_request
  handle_request-renew ip ours wants allowed =
      ground (arith, ours, wants, allowed, grant-store server_ip pkt cfg s profile ip now)
