-- ===== src/Dhcp/Handler/Discover.antt =====
-- What a DISCOVER promises: the offer and the lease behind it.
use mydhcp.Common.{ℕ, ◌+◌, ◌≡◌, refl, sym, subst, Option, some, none, arith, Option-cases, inl, inr}
use mydhcp.Lease.{Lease}
use mydhcp.Net.{Ip}
use mydhcp.Store.Defs.{Store}
use mydhcp.Store.Ops.{first}
use mydhcp.Store.Invariant.{IsValid}
use mydhcp.Subnet.{Config}
use mydhcp.Ztp.Defs.{Device, Profile}
use mydhcp.Dhcp.Options.{msg_offer}
use mydhcp.Dhcp.Packet.{Packet, client_id}
use mydhcp.Dhcp.Handler.{Outcome, handle_discover, find_lease, preferred_ip}
use mydhcp.Dhcp.Reply.{build_reply, inject_ztp_options}
use mydhcp.Dhcp.Handler.Offers.{IsOffer, find_lease-IsOffer, find_lease_total, find_lease-IsValid}
use mydhcp.Dhcp.Handler.Replies.{Echoes, IsKind, reply-IsKind, reply-Echoes}

module _ (server_ip : Option Ip) (pkt : Packet) (cfg : Config) (s : Store) (device : Option Device)
    (profile : Option Profile) (now : ℕ) where
  abbrev pub found : Store × Option Lease
  found = find_lease s (client_id pkt) (preferred_ip pkt cfg s device) now

  abbrev pub discovered : Outcome
  discovered = handle_discover server_ip pkt cfg s device profile now

  pub discover-store : discovered.store ≡ found.0
  unfolding handle_discover
  discover-store = ground arith

  pub discover-reply :
      (l : Lease)
      → found.1 ≡ some l
      → discovered.reply
        ≡ some (
            inject_ztp_options
              (build_reply server_ip pkt cfg (some l.ip) msg_offer cfg.lease_time)
              server_ip
              pkt.chaddr
              profile)
  unfolding handle_discover
  discover-reply l h = ground arith

  pub discover-silent : found.1 ≡ none → discovered.reply ≡ none
  unfolding handle_discover
  discover-silent h = ground arith

  -- The reply offers the address of a lease that the store now holds: an open offer to this
  -- client for the offer's time.
  abbrev pub Offers : Packet → Type 0
  Offers reply =
      (l : Lease) × (reply.yiaddr ≡ some l.ip)
      × IsOffer discovered.store (client_id pkt) (now + s.offer_ttl) l
      × IsKind server_ip msg_offer reply
      × Echoes pkt reply

  abbrev offer_reply : Lease → Packet
  offer_reply l =
      inject_ztp_options (build_reply server_ip pkt cfg (some l.ip) msg_offer cfg.lease_time)
        server_ip pkt.chaddr profile

  pub yiaddr-offer_reply :
      (l : Lease) (p : Option Profile)
      → (inject_ztp_options
          (build_reply server_ip pkt cfg (some l.ip) msg_offer cfg.lease_time)
          server_ip
          pkt.chaddr
          p).yiaddr
        ≡ some l.ip
  unfolding inject_ztp_options build_reply
  yiaddr-offer_reply l none = refl
  yiaddr-offer_reply l (some p) = refl

  offer_reply-Offers : (l : Lease) → IsValid s → found.1 ≡ some l → Offers (offer_reply l)
  offer_reply-Offers l v h = (
    l,
    yiaddr-offer_reply l profile,
    subst (λ t. IsOffer t (client_id pkt) (now + s.offer_ttl) l) (sym discover-store)
        (find_lease-IsOffer s (client_id pkt) (preferred_ip pkt cfg s device) now l v h),
    reply-IsKind server_ip pkt cfg (some l.ip) msg_offer cfg.lease_time profile,
    reply-Echoes server_ip pkt cfg (some l.ip) msg_offer cfg.lease_time profile,
  )

  -- Every reply to a DISCOVER on a well-formed store is an OFFER of this server that echoes the
  -- packet and carries the address of a lease that the store now holds: this client's, open until
  -- now plus the offer's time.
  pub handle_discover-Offers :
      (reply : Packet) → IsValid s → discovered.reply ≡ some reply → Offers reply
  handle_discover-Offers reply v h = elim (Option-cases found.1) [
    | inl e ↦ absurd (cc (discover-silent e))
    | inr (l, e) ↦ subst Offers (cc (discover-reply l e)) (offer_reply-Offers l v e)
  ]

  -- A DISCOVER on a well-formed store whose pool has an address is answered, and the reply is an
  -- OFFER of this server that echoes the packet and carries the address of a lease that the store
  -- now holds: this client's, open until now plus the offer's time.
  pub handle_discover_answers :
      (ip : Ip)
      → IsValid s
      → first s.available ≡ some ip
      → (reply : Packet) × (discovered.reply ≡ some reply) × Offers reply
  handle_discover_answers ip v h =
      let (l, e) = find_lease_total s (client_id pkt) (preferred_ip pkt cfg s device) ip now v h in
      (offer_reply l, discover-reply l e, offer_reply-Offers l v e)

  pub handle_discover-IsValid : IsValid s → IsValid discovered.store
  handle_discover-IsValid v =
      subst IsValid (sym discover-store)
        (find_lease-IsValid s (client_id pkt) (preferred_ip pkt cfg s device) now v)

  pub handle_discover-Echoes : (reply : Packet) → discovered.reply ≡ some reply → Echoes pkt reply
  handle_discover-Echoes reply h = elim (Option-cases found.1) [
    | inl e ↦ absurd (cc (discover-silent e))
    | inr (l, e) ↦
        subst (Echoes pkt) (cc (discover-reply l e))
          (reply-Echoes server_ip pkt cfg (some l.ip) msg_offer cfg.lease_time profile)
  ]
