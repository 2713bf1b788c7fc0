-- ===== src/Dhcp/Handler/Request.antt =====
-- What a REQUEST promises: silence, a NAK, or an acknowledgement.
use mydhcp.Common.{
  ℕ, ◌≡◌, ap, sym, ◌∙◌, subst, Option, some, none, arith, Option-cases, inl, inr, true, false,
  Bool-cases, text_eq,
}
use mydhcp.Lease.{Lease}
use mydhcp.Net.{Ip}
use mydhcp.Store.Defs.{Store}
use mydhcp.Store.Ops.{get}
use mydhcp.Store.Invariant.Steps.{renew-IsValid}
use mydhcp.Store.Invariant.{IsValid}
use mydhcp.Subnet.{Config}
use mydhcp.Ztp.Defs.{Device, Profile}
use mydhcp.Dhcp.Options.{server_id}
use mydhcp.Dhcp.Packet.{Packet, client_id}
use mydhcp.Dhcp.Handler.{
  Outcome, handle_request, grant_request, for_other_server, wanted_ip, not_static, static_ip,
}
use mydhcp.Dhcp.Reply.{build_nak}
use mydhcp.Dhcp.Handler.Replies.{Echoes, build_nak-Echoes}
use mydhcp.Dhcp.Handler.Grant.{
  Renewable, Acknowledges, grant-err, granted-Acknowledges, grant-store, renew_cases, grant-Echoes,
}

-- What a REQUEST can come to: silence, a NAK, or the acknowledgement of an address.
pub data Answer (server_ip : Option Ip) (pkt : Packet) (cfg : Config) (s : Store)
    (device : Option Device) (profile : Option Profile) (now : ℕ) (out : Outcome) : Type 0 where
  ignored :
      for_other_server (server_id pkt.options) server_ip ≡ true
      → out.store ≡ s
      → out.reply ≡ none
      → Answer server_ip pkt cfg s device profile now out
  refused :
      for_other_server (server_id pkt.options) server_ip ≡ false
      → out.store ≡ s
      → out.reply ≡ some (build_nak server_ip pkt)
      → Answer server_ip pkt cfg s device profile now out
  acknowledged :
      (ip : Ip) (old : Lease)
      → for_other_server (server_id pkt.options) server_ip ≡ false
      → wanted_ip pkt ≡ some ip
      → not_static (static_ip device) ip ≡ false
      → Acknowledges server_ip pkt cfg s profile ip now out.store out.reply old
      → Answer server_ip pkt cfg s device profile now out

module _ (server_ip : Option Ip) (pkt : Packet) (cfg : Config) (s : Store) (device : Option Device)
    (profile : Option Profile) (now : ℕ) where
  abbrev pub requested : Outcome
  requested = handle_request server_ip pkt cfg s device profile now

  request-granted :
      (ip : Ip)
      → for_other_server (server_id pkt.options) server_ip ≡ false
      → wanted_ip pkt ≡ some ip
      → not_static (static_ip device) ip ≡ false
      → requested ≡ grant_request server_ip pkt cfg s profile ip now
  unfolding handle_request
  request-granted ip ours wanted allowed = ground (arith, ours, wanted, allowed)

  -- On a well-formed store a REQUEST that names no other server, for an address that no static
  -- record contradicts and whose lease is the client's and offered or bound, is acknowledged, and
  -- the store holds that lease as bound for the lease time from now.
  pub handle_request-Acknowledges :
      (ip : Ip) (old : Lease)
      → IsValid s
      → for_other_server (server_id pkt.options) server_ip ≡ false
      → wanted_ip pkt ≡ some ip
      → not_static (static_ip device) ip ≡ false
      → Renewable (get s ip) (client_id pkt) old
      → Acknowledges server_ip pkt cfg s profile ip now requested.store requested.reply old
  handle_request-Acknowledges ip old v ours wanted allowed can =
      rw (request-granted ip ours wanted allowed)
        (granted-Acknowledges server_ip pkt cfg s profile ip now old v can)

  wanted-Answer :
      (ip : Ip)
      → IsValid s
      → for_other_server (server_id pkt.options) server_ip ≡ false
      → wanted_ip pkt ≡ some ip
      → not_static (static_ip device) ip ≡ false
      → Answer server_ip pkt cfg s device profile now requested
  wanted-Answer ip v ours wanted allowed = elim (renew_cases server_ip pkt cfg s profile ip now) [
    | inl (old, can) ↦
        acknowledged ip old ours wanted allowed
          (handle_request-Acknowledges ip old v ours wanted allowed can)
    | inr (e, failed) ↦
        let (kept, replied) = grant-err server_ip pkt cfg s profile ip now e failed in
        let same = request-granted ip ours wanted allowed in
        refused ours (ap (λ (o : Outcome). o.store) same ∙ kept)
          (ap (λ (o : Outcome). o.reply) same ∙ replied)
  ]

  -- On a well-formed store a REQUEST comes to one of three: if it names another server it is
  -- ignored and the store is as it was; otherwise it is refused by a NAK and the store is as it
  -- was, or the address that it wants, which no static record contradicts and whose lease is the
  -- client's and offered or bound, is acknowledged and the store holds that lease as bound for the
  -- lease time from now.
  pub handle_request-Answer : IsValid s → Answer server_ip pkt cfg s device profile now requested
  handle_request-Answer v = elim (Bool-cases (for_other_server (server_id pkt.options) server_ip)) [
    | inl theirs ↦
        unfold handle_request in ignored theirs (ground (arith, theirs)) (ground (arith, theirs))
    | inr ours ↦ elim (Option-cases (wanted_ip pkt)) [
      | inl e ↦
          unfold handle_request in refused ours (ground (arith, ours, e)) (ground (arith, ours, e))
      | inr (ip, e) ↦ elim (Bool-cases (not_static (static_ip device) ip)) [
        | inl clash ↦
            unfold handle_request in
            refused ours (ground (arith, ours, e, clash)) (ground (arith, ours, e, clash))
        | inr allowed ↦ wanted-Answer ip v ours e allowed
      ]
    ]
  ]

  pub handle_request-IsValid : IsValid s → IsValid requested.store
  handle_request-IsValid v =
      elim (Bool-cases (for_other_server (server_id pkt.options) server_ip)) [
        | inl theirs ↦ unfold handle_request in ground (arith, theirs, v)
        | inr ours ↦ elim (Option-cases (wanted_ip pkt)) [
          | inl e ↦ unfold handle_request in ground (arith, ours, e, v)
          | inr (ip, e) ↦ elim (Bool-cases (not_static (static_ip device) ip)) [
            | inl clash ↦ unfold handle_request in ground (arith, ours, e, clash, v)
            | inr allowed ↦ rw (request-granted ip ours e allowed) (
                subst IsValid (sym (grant-store server_ip pkt cfg s profile ip now))
                  (renew-IsValid s (client_id pkt) ip now v))
          ]
        ]
      ]

  pub handle_request-Echoes : (reply : Packet) → requested.reply ≡ some reply → Echoes pkt reply
  handle_request-Echoes reply h =
      elim (Bool-cases (for_other_server (server_id pkt.options) server_ip)) [
        | inl theirs ↦ unfold handle_request in absurd (ground (arith, theirs))
        | inr ours ↦ elim (Option-cases (wanted_ip pkt)) [
          | inl e ↦
              let nak : some (build_nak server_ip pkt) ≡ some reply =
                unfold handle_request in ground (arith, ours, e) in
              subst (Echoes pkt) (cc (nak)) (build_nak-Echoes server_ip pkt)
          | inr (ip, e) ↦ elim (Bool-cases (not_static (static_ip device) ip)) [
            | inl clash ↦
                let nak : some (build_nak server_ip pkt) ≡ some reply =
                  unfold handle_request in ground (arith, ours, e, clash) in
                subst (Echoes pkt) (cc (nak)) (build_nak-Echoes server_ip pkt)
            | inr allowed ↦
                grant-Echoes server_ip pkt cfg s profile ip now reply
                  (ap (λ (o : Outcome). o.reply) (sym (request-granted ip ours e allowed)) ∙ h)
          ]
        ]
      ]
