-- ===== src/Dhcp/Handler/Grant.antt =====
-- What handleRequest makes of Renew: the acknowledgement and the lease behind it, or the NAK.
use mydhcp.Common.{
  Result-cases, ℕ, ◌≡◌, ◌≢◌, refl, ap, sym, ◌∙◌, subst, List, Option, some, none, arith, inl, inr,
  ◌⊎◌, ok, err, ◌=?◌, text_eq,
}
use mydhcp.Lease.{Lease, State, reserved, offered, bound, expired, declined}
use mydhcp.Net.{Ip}
use mydhcp.Store.Defs.{Store, Error, not_found, client_mismatch, wrong_state}
use mydhcp.Store.Ops.{get, renew}
use mydhcp.Store.Invariant.{IsValid}
use mydhcp.Store.Lifecycle.{get-ip, renew_answer, bound_lease, renew_answer_lem, get-renew}
use mydhcp.Subnet.{Config}
use mydhcp.Ztp.Defs.{Profile}
use mydhcp.Dhcp.Options.{msg_ack}
use mydhcp.Dhcp.Packet.{Packet, client_id}
use mydhcp.Dhcp.Handler.{Outcome, grant_request}
use mydhcp.Dhcp.Reply.{build_reply, build_nak, inject_ztp_options}
use mydhcp.Dhcp.Handler.Replies.{Echoes, IsKind, reply-IsKind, reply-Echoes, build_nak-Echoes}

-- Whether a lease may be bound by the client: it is the client's, and offered or bound.
abbrev pub Renewable : Option Lease → List ℕ → Lease → Type 0
Renewable o c old =
    (o ≡ some old) × (old.client_id ≡ c) × ((old.state ≡ offered) ⊎ (old.state ≡ bound))

-- A state can be bound, or Renew refuses it by name.
bindable : (st : State) → ((st ≡ offered) ⊎ (st ≡ bound)) ⊎ ((st ≢ offered) × (st ≢ bound))
bindable reserved = inr (ground arith, ground arith)
bindable offered = inl (inl refl)
bindable bound = inl (inr refl)
bindable expired = inr (ground arith, ground arith)
bindable declined = inr (ground arith, ground arith)

answer_cases :
    (o : Option Lease) (c : List ℕ) (bind : Lease → Lease)
    → ((old : Lease) × Renewable o c old) ⊎ ((e : Error) × (renew_answer o c bind ≡ err e))
answer_cases none c bind = inr (not_found, refl)
answer_cases (some old) c bind = elim (old.client_id =? c) [
  | no other ↦ inr (client_mismatch, ground (arith, other))
  | yes mine ↦ elim (bindable old.state) [
    | inl can ↦ inl (old, (refl, mine, can))
    | inr cannot ↦ inr (wrong_state old.state, ground (arith, mine, cannot))
  ]
]

module _ (server_ip : Option Ip) (pkt : Packet) (cfg : Config) (s : Store)
    (profile : Option Profile) (ip : Ip) (now : ℕ) where
  abbrev granted : Outcome
  granted = grant_request server_ip pkt cfg s profile ip now

  abbrev ack_reply : Lease → Packet
  ack_reply l =
      inject_ztp_options (build_reply server_ip pkt cfg (some l.ip) msg_ack cfg.lease_time)
        server_ip pkt.chaddr profile

  grant-ok :
      (l : Lease)
      → (renew s (client_id pkt) ip now).1 ≡ ok l
      → (granted.store ≡ (renew s (client_id pkt) ip now).0) × (granted.reply ≡ some (ack_reply l))
  unfolding grant_request
  grant-ok l h = ground (arith, h)

  pub grant-store : granted.store ≡ (renew s (client_id pkt) ip now).0
  unfolding grant_request
  grant-store = ground arith

  pub grant-err :
      (e : Error)
      → (renew s (client_id pkt) ip now).1 ≡ err e
      → (granted.store ≡ s) × (granted.reply ≡ some (build_nak server_ip pkt))
  unfolding grant_request renew
  grant-err e h = ground (arith, h)

  -- The reply acknowledges the address, and the store holds the client's lease of it as bound for
  -- the lease time from now on.
  abbrev pub Acknowledges : Store → Option Packet → Lease → Type 0
  Acknowledges t reply old =
      Renewable (get s ip) (client_id pkt) old
      × (get t ip ≡ some (bound_lease s now old))
      × ((r : Packet) × (reply ≡ some r)
          × (r.yiaddr ≡ some ip)
          × IsKind server_ip msg_ack r
          × Echoes pkt r)

  yiaddr-ack_reply :
      (l : Lease) (p : Option Profile)
      → (inject_ztp_options
          (build_reply server_ip pkt cfg (some l.ip) msg_ack cfg.lease_time)
          server_ip
          pkt.chaddr
          p).yiaddr
        ≡ some l.ip
  unfolding inject_ztp_options build_reply
  yiaddr-ack_reply l none = refl
  yiaddr-ack_reply l (some p) = refl

  Renewable-renew :
      (old : Lease)
      → Renewable (get s ip) (client_id pkt) old
      → (renew s (client_id pkt) ip now).1 ≡ ok (bound_lease s now old)
  Renewable-renew old (g, mine, st) =
      ground (arith, g, mine, st, renew_answer_lem s (client_id pkt) ip now)

  pub granted-Acknowledges :
      (old : Lease)
      → IsValid s
      → Renewable (get s ip) (client_id pkt) old
      → Acknowledges granted.store granted.reply old
  granted-Acknowledges old v can =
      let l = bound_lease s now old in
      let bound_now = Renewable-renew old can in
      let same_ip : old.ip ≡ ip = get-ip s ip old v can.0 in
      let (kept, replied) = grant-ok l bound_now in
      (
        can,
        subst (λ t. get t ip ≡ some l) (sym kept) (get-renew s (client_id pkt) ip now l bound_now),
        (
          ack_reply l,
          replied,
          yiaddr-ack_reply l profile ∙ ap some same_ip,
          reply-IsKind server_ip pkt cfg (some l.ip) msg_ack cfg.lease_time profile,
          reply-Echoes server_ip pkt cfg (some l.ip) msg_ack cfg.lease_time profile,
        ),
      )

  pub renew_cases :
      ((old : Lease) × Renewable (get s ip) (client_id pkt) old)
      ⊎ ((e : Error) × ((renew s (client_id pkt) ip now).1 ≡ err e))
  renew_cases =
      rw (renew_answer_lem s (client_id pkt) ip now)
        (answer_cases (get s ip) (client_id pkt) (bound_lease s now))

  pub grant-Echoes : (reply : Packet) → granted.reply ≡ some reply → Echoes pkt reply
  grant-Echoes reply h = elim (Result-cases (renew s (client_id pkt) ip now).1) [
    | inl (l, e) ↦
        subst (Echoes pkt) (cc (h, (grant-ok l e).1))
          (reply-Echoes server_ip pkt cfg (some l.ip) msg_ack cfg.lease_time profile)
    | inr (x, e) ↦ subst (Echoes pkt) (cc (h, (grant-err x e).1)) (build_nak-Echoes server_ip pkt)
  ]
