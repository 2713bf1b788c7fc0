-- ===== src/Dhcp/Handler/Terms.antt =====
-- The lease time that an OFFER or an ACK tells the client.
use mydhcp.Common.{
  ℕ, ◌/◌, ◌≡◌, ◌∙◌, refl, List, [], ◌∷◌, Option, some, none, arith, nat_eq, ltb, Bool-cases, inl,
  inr, ◌≢◌, if◌then◌else◌, ℕ_discrete,
}
use mydhcp.Common.Maps.{lookup, insert, lookup-insert}
use mydhcp.Net.{Ip}
use mydhcp.Store.Defs.{Store}
use mydhcp.Subnet.{Config}
use mydhcp.Ztp.Defs.{Device, Profile}
use mydhcp.Dhcp.Options.{
  Options, opt_lease_time, msg_ack, msg_type, encode_ip, encode_ips, encode_uint32,
}
use mydhcp.Dhcp.Packet.{Packet}
use mydhcp.Dhcp.Handler.{handle_request}
use mydhcp.Dhcp.Handler.Forms.{handle_request_form}
use mydhcp.Dhcp.Handler.Replies.{nak-IsKind}
use mydhcp.Dhcp.Reply.{
  put_address, put_dns, base_options, lease_options, build_reply, inject_ztp_options,
}

-- The option of the lease time that a subnet's replies carry.
abbrev pub told : Config → Option (List ℕ)
told cfg = if ltb 0 cfg.lease_time then some (encode_uint32 (cfg.lease_time / 1000000000)) else none

other_code :
    (k j : ℕ) (v : List ℕ) (opts : Options) → k ≢ j → lookup j (insert k v opts) ≡ lookup j opts
other_code k j v opts h = ground (arith, lookup-insert k j v opts)

same_code : (k : ℕ) (v : List ℕ) (opts : Options) → lookup k (insert k v opts) ≡ some v
same_code k v opts = ground (arith, lookup-insert k k v opts)

other_address :
    (code j : ℕ) (a : Option Ip) (opts : Options)
    → code ≢ j
    → lookup j (put_address code a opts) ≡ lookup j opts
unfolding put_address
other_address code j none opts h = refl
other_address code j (some a) opts h = other_code code j (encode_ip (some a)) opts h

other_dns :
    (j : ℕ) (dns : List (Option Ip)) (opts : Options)
    → 6 ≢ j
    → lookup j (put_dns dns opts) ≡ lookup j opts
unfolding put_dns
other_dns j [] opts h = refl
other_dns j (a ∷ dns) opts h = other_code 6 j (encode_ips (a ∷ dns)) opts h

lease_options-told :
    (cfg : Config) (time : ℕ) (opts : Options)
    → lookup 51 (lease_options cfg time opts) ≡ some (encode_uint32 (time / 1000000000))
unfolding lease_options
lease_options-told cfg time opts =
    other_address 28 51 cfg.broadcast _ (omega arith)
    ∙ other_dns 51 cfg.dns _ (omega arith)
    ∙ other_address 3 51 cfg.router _ (omega arith)
    ∙ other_code 1 51 _ _ (omega arith)
    ∙ same_code 51 _ opts

base_untold : (server_ip : Option Ip) (kind : ℕ) → lookup 51 (base_options server_ip kind) ≡ none
unfolding base_options lookup insert ℕ_discrete
base_untold server_ip kind = refl

reply-told :
    (server_ip : Option Ip) (pkt : Packet) (cfg : Config) (a : Ip) (kind : ℕ)
    → lookup 51 (build_reply server_ip pkt cfg (some a) kind cfg.lease_time).options ≡ told cfg
unfolding build_reply
reply-told server_ip pkt cfg a kind = elim (Bool-cases (ltb 0 cfg.lease_time)) [
  | inl e ↦ rw e (lease_options-told cfg cfg.lease_time (base_options server_ip kind))
  | inr e ↦ rw e (base_untold server_ip kind)
]

injected-told :
    (reply : Packet) (server_ip : Option Ip) (chaddr : List ℕ) (profile : Option Profile)
    → lookup 51 (inject_ztp_options reply server_ip chaddr profile).options
      ≡ lookup 51 reply.options
unfolding inject_ztp_options
injected-told reply server_ip chaddr none = refl
injected-told reply server_ip chaddr (some p) =
    other_code 67 51 _ _ (omega arith) ∙ other_code 66 51 _ reply.options (omega arith)

-- An ACK to a REQUEST carries the subnet's lease time in whole seconds, unless it is zero.
pub handle_request-told :
    (server_ip : Option Ip) (pkt : Packet) (cfg : Config) (s : Store) (device : Option Device)
    (profile : Option Profile) (now : ℕ) (reply : Packet)
    → (handle_request server_ip pkt cfg s device profile now).reply ≡ some reply
    → msg_type reply.options ≡ some msg_ack
    → lookup opt_lease_time reply.options ≡ told cfg
handle_request-told server_ip pkt cfg s device profile now reply =
    handle_request_form
      (λ r. msg_type r.options ≡ some msg_ack → lookup opt_lease_time r.options ≡ told cfg)
      server_ip pkt cfg (λ h. absurd (ground (arith, h, (nak-IsKind server_ip pkt).of_kind)))
      (λ a kind p h. injected-told _ server_ip pkt.chaddr p ∙ reply-told server_ip pkt cfg a kind) s
      device profile now reply
