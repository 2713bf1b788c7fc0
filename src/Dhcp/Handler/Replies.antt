-- ===== src/Dhcp/Handler/Replies.antt =====
-- The replies: what they echo, and the options that they carry.
use mydhcp.Common.{
  ℕ, ◌<◌, ◌≡◌, refl, ◌∙◌, ◌⊎◌, List, [], ◌∷◌, Option, some, none, arith, nat_eq, ltb, Bool-cases,
  inl, inr,
}
use mydhcp.Common.Maps.{lookup, insert, lookup-insert}
use mydhcp.Net.{Ip}
use mydhcp.Subnet.{Config}
use mydhcp.Ztp.Defs.{Profile}
use mydhcp.Dhcp.Options.{Options, opt_server_id, msg_type, msg_ack, msg_nak, encode_ip, encode_ips}
use mydhcp.Dhcp.Packet.{Packet}
use mydhcp.Dhcp.Handler.{handle_inform}
use mydhcp.Dhcp.Reply.{
  put_address, put_dns, base_options, lease_options, build_reply, build_nak, inject_ztp_options,
}

-- The reply answers the packet: the client and the relay recognise it by these fields.
pub record Echoes (pkt reply : Packet) : Type 0 where
  pub is_reply : reply.op ≡ 2
  pub same_xid : reply.xid ≡ pkt.xid
  pub same_flags : reply.flags ≡ pkt.flags
  pub same_giaddr : reply.giaddr ≡ pkt.giaddr
  pub same_htype : reply.htype ≡ pkt.htype
  pub same_hlen : reply.hlen ≡ pkt.hlen
  pub same_chaddr : reply.chaddr ≡ pkt.chaddr

build_reply-Echoes :
    (server_ip : Option Ip) (pkt : Packet) (cfg : Config) (a : Option Ip) (kind time : ℕ)
    → Echoes pkt (build_reply server_ip pkt cfg a kind time)
unfolding build_reply
build_reply-Echoes server_ip pkt cfg a kind time = record {
  is_reply = refl;
  same_xid = refl;
  same_flags = refl;
  same_giaddr = refl;
  same_htype = refl;
  same_hlen = refl;
  same_chaddr = refl;
}

pub build_nak-Echoes : (server_ip : Option Ip) (pkt : Packet) → Echoes pkt (build_nak server_ip pkt)
unfolding build_nak
build_nak-Echoes server_ip pkt = record {
  is_reply = refl;
  same_xid = refl;
  same_flags = refl;
  same_giaddr = refl;
  same_htype = refl;
  same_hlen = refl;
  same_chaddr = refl;
}

inject_ztp_options-Echoes :
    (pkt reply : Packet) (server_ip : Option Ip) (chaddr : List ℕ) (profile : Option Profile)
    → Echoes pkt reply
    → Echoes pkt (inject_ztp_options reply server_ip chaddr profile)
unfolding inject_ztp_options
inject_ztp_options-Echoes pkt reply server_ip chaddr none e = e
inject_ztp_options-Echoes pkt reply server_ip chaddr (some p) e = record {
  is_reply = e.is_reply;
  same_xid = e.same_xid;
  same_flags = e.same_flags;
  same_giaddr = e.same_giaddr;
  same_htype = e.same_htype;
  same_hlen = e.same_hlen;
  same_chaddr = e.same_chaddr;
}

-- A code keeps its value through an insertion under another code.
lookup-insert_ne :
    (k j : ℕ) (v : List ℕ) (opts : Options)
    → (k ≡ j → ⊥)
    → lookup j (insert k v opts) ≡ lookup j opts
lookup-insert_ne k j v opts h = ground (arith, lookup-insert k j v opts)

base_options_lem :
    (server_ip : Option Ip) (kind : ℕ)
    → (lookup 53 (base_options server_ip kind) ≡ some (kind ∷ []))
      × (lookup 54 (base_options server_ip kind) ≡ some (encode_ip server_ip))
unfolding base_options lookup insert
base_options_lem server_ip kind = ground arith

-- The options of a lease and the boot options leave the message type and the server's address.
module _ (j : ℕ) (identity : (j ≡ 53) ⊎ (j ≡ 54)) where
  lookup-put_address :
      (code : ℕ) (a : Option Ip) (opts : Options)
      → code < 53
      → lookup j (put_address code a opts) ≡ lookup j opts
  unfolding put_address
  lookup-put_address code none opts h = refl
  lookup-put_address code (some a) opts h =
      lookup-insert_ne code j (encode_ip (some a)) opts (ground arith)

  lookup-put_dns :
      (dns : List (Option Ip)) (opts : Options) → lookup j (put_dns dns opts) ≡ lookup j opts
  unfolding put_dns
  lookup-put_dns [] opts = refl
  lookup-put_dns (a ∷ rest) opts = lookup-insert_ne 6 j (encode_ips (a ∷ rest)) opts (ground arith)

  lookup-lease_options :
      (cfg : Config) (time : ℕ) (opts : Options)
      → lookup j (lease_options cfg time opts) ≡ lookup j opts
  unfolding lease_options
  lookup-lease_options cfg time opts =
      lookup-put_address 28 cfg.broadcast _ (omega arith)
      ∙ lookup-put_dns cfg.dns _
      ∙ lookup-put_address 3 cfg.router _ (omega arith)
      ∙ lookup-insert_ne 1 j _ _ (ground arith)
      ∙ lookup-insert_ne 51 j _ opts (ground arith)

  lookup-build_reply :
      (server_ip : Option Ip) (pkt : Packet) (cfg : Config) (a : Option Ip) (kind time : ℕ)
      → lookup j (build_reply server_ip pkt cfg a kind time).options
        ≡ lookup j (base_options server_ip kind)
  unfolding build_reply
  lookup-build_reply server_ip pkt cfg none kind time = refl
  lookup-build_reply server_ip pkt cfg (some a) kind time = elim (Bool-cases (ltb 0 time)) [
    | inl e ↦ rw e (lookup-lease_options cfg time (base_options server_ip kind))
    | inr e ↦ rw e
  ]

  lookup-inject_ztp_options :
      (pkt : Packet) (server_ip : Option Ip) (chaddr : List ℕ) (profile : Option Profile)
      → lookup j (inject_ztp_options pkt server_ip chaddr profile).options ≡ lookup j pkt.options
  unfolding inject_ztp_options
  lookup-inject_ztp_options pkt server_ip chaddr none = refl
  lookup-inject_ztp_options pkt server_ip chaddr (some p) =
      lookup-insert_ne 67 j _ _ (ground arith) ∙ lookup-insert_ne 66 j _ pkt.options (ground arith)

-- A reply with a type and the server's address.
pub record IsKind (server_ip : Option Ip) (kind : ℕ) (reply : Packet) : Type 0 where
  pub of_kind : msg_type reply.options ≡ some kind
  pub from_server : lookup opt_server_id reply.options ≡ some (encode_ip server_ip)

kind_of_lookup :
    (opts : Options) (kind : ℕ) → lookup 53 opts ≡ some (kind ∷ []) → msg_type opts ≡ some kind
unfolding msg_type
kind_of_lookup opts kind h = ground arith

-- The reply of buildReply with the boot options.
pub reply-IsKind :
    (server_ip : Option Ip) (pkt : Packet) (cfg : Config) (a : Option Ip) (kind time : ℕ)
    → (profile : Option Profile)
    → IsKind server_ip kind (
        inject_ztp_options (build_reply server_ip pkt cfg a kind time) server_ip pkt.chaddr profile)
reply-IsKind server_ip pkt cfg a kind time profile =
    let reply = build_reply server_ip pkt cfg a kind time in
    record {
      of_kind = kind_of_lookup _ kind (
          lookup-inject_ztp_options 53 (inl refl) reply server_ip pkt.chaddr profile
          ∙ lookup-build_reply 53 (inl refl) server_ip pkt cfg a kind time
          ∙ (base_options_lem server_ip kind).0);
      from_server =
          lookup-inject_ztp_options 54 (inr refl) reply server_ip pkt.chaddr profile
          ∙ lookup-build_reply 54 (inr refl) server_ip pkt cfg a kind time
          ∙ (base_options_lem server_ip kind).1;
    }

pub nak-IsKind :
    (server_ip : Option Ip) (pkt : Packet) → IsKind server_ip msg_nak (build_nak server_ip pkt)
unfolding build_nak
nak-IsKind server_ip pkt = record {
  of_kind = kind_of_lookup _ msg_nak (base_options_lem server_ip msg_nak).0;
  from_server = (base_options_lem server_ip msg_nak).1;
}

pub reply-Echoes :
    (server_ip : Option Ip) (pkt : Packet) (cfg : Config) (a : Option Ip) (kind time : ℕ)
    → (profile : Option Profile)
    → Echoes pkt (
        inject_ztp_options (build_reply server_ip pkt cfg a kind time) server_ip pkt.chaddr profile)
reply-Echoes server_ip pkt cfg a kind time profile =
    inject_ztp_options-Echoes pkt _ server_ip pkt.chaddr profile
      (build_reply-Echoes server_ip pkt cfg a kind time)

pub handle_inform-Echoes :
    (server_ip : Option Ip) (pkt : Packet) (cfg : Config)
    → Echoes pkt (handle_inform server_ip pkt cfg)
unfolding handle_inform
handle_inform-Echoes server_ip pkt cfg =
    let e = build_reply-Echoes server_ip pkt cfg none msg_ack 0 in
    record {
      is_reply = e.is_reply;
      same_xid = e.same_xid;
      same_flags = e.same_flags;
      same_giaddr = e.same_giaddr;
      same_htype = e.same_htype;
      same_hlen = e.same_hlen;
      same_chaddr = e.same_chaddr;
    }
