-- ===== src/Dhcp/Handler/Fits.antt =====
-- The replies fit the wire: a client that parses one reads what the server meant.
use mydhcp.Common.{
  ℕ, ◌*◌, ◌≤◌, ◌<◌, ◌≡◌, refl, subst, List, [], ◌∷◌, ◌++◌, Option, some, none, arith, nat_eq, ltb,
  length, length-append, Bool-cases, inl, inr, ok,
}
use mydhcp.Common.Maps.{lookup, insert, lookup-insert}
use mydhcp.Net.{Ip}
use mydhcp.Net.Cidr.{mask}
use mydhcp.Store.Defs.{Store}
use mydhcp.Subnet.{Config}
use mydhcp.Text.{hex, decimal, dotted}
use mydhcp.Text.Injective.{length-hex}
use mydhcp.Ztp.Defs.{Device, Profile}
use mydhcp.Dhcp.Options.{Options, encode_ip, encode_ips, encode_uint32}
use mydhcp.Dhcp.Options.RoundTrip.{Encodable}
use mydhcp.Dhcp.Packet.{Packet, parse, serialize}
use mydhcp.Dhcp.Packet.RoundTrip.{IsPacket, on_wire, parse-serialize}
use mydhcp.Dhcp.Handler.{handle_inform, dispatch}
use mydhcp.Dhcp.Handler.Forms.{handle_discover_form, handle_request_form}
use mydhcp.Dhcp.Handler.Replies.{Echoes}
use mydhcp.Dhcp.Handler.Safety.{dispatch-Echoes, handle_release-reply, handle_decline-reply}
use mydhcp.Dhcp.Reply.{
  put_address, put_dns, base_options, lease_options, zeros, build_reply, build_nak, ip_text,
  inject_ztp_options,
}

insert-Encodable :
    (k : ℕ) (v : List ℕ) (m : Options)
    → 0 < k
    → k < 255
    → length v < 256
    → Encodable m
    → Encodable (insert k v m)
unfolding lookup insert
insert-Encodable k v [] pos low short w = (refl, pos, low, short, tt)
insert-Encodable k v ((j, u) ∷ m) pos low short w =
    ground (arith, w, lookup-insert k j v m, insert-Encodable k v m pos low short)

length-encode_ip : (a : Option Ip) → length (encode_ip a) ≡ 4
unfolding encode_ip
length-encode_ip none = refl
length-encode_ip (some a) = refl

length-encode_ips : (addrs : List (Option Ip)) → length (encode_ips addrs) ≡ 4 * length addrs
unfolding encode_ips
length-encode_ips [] = refl
length-encode_ips (a ∷ addrs) = omega (
  arith,
  length-append (encode_ip a) (encode_ips addrs),
  length-encode_ip a,
  length-encode_ips addrs,
)

length-decimal : (n : ℕ) → length (decimal n) ≤ 3
unfolding decimal
length-decimal n = ground arith

length-ip_text : (a : Option Ip) → length (ip_text a) < 256
unfolding ip_text dotted
length-ip_text none = omega arith
length-ip_text (some a) = omega (
  arith,
  length-append (decimal a.b0)
      (b'.' ∷ (decimal a.b1 ++ b'.' ∷ (decimal a.b2 ++ b'.' ∷ decimal a.b3))),
  length-append (decimal a.b1) (b'.' ∷ (decimal a.b2 ++ b'.' ∷ decimal a.b3)),
  length-append (decimal a.b2) (b'.' ∷ decimal a.b3),
  length-decimal a.b0,
  length-decimal a.b1,
  length-decimal a.b2,
  length-decimal a.b3,
)

base_options-Encodable :
    (server_ip : Option Ip) (kind : ℕ) → Encodable (base_options server_ip kind)
unfolding base_options
base_options-Encodable server_ip kind =
    insert-Encodable 54 (encode_ip server_ip) _ (omega arith) (omega arith)
      (omega (arith, length-encode_ip server_ip))
      (insert-Encodable 53 (kind ∷ []) [] (omega arith) (omega arith) (omega arith) tt)

put_address-Encodable :
    (code : ℕ) (a : Option Ip) (opts : Options)
    → 0 < code
    → code < 255
    → Encodable opts
    → Encodable (put_address code a opts)
unfolding put_address
put_address-Encodable code none opts pos low w = w
put_address-Encodable code (some a) opts pos low w =
    insert-Encodable code (encode_ip (some a)) opts pos low
      (omega (arith, length-encode_ip (some a))) w

put_dns-Encodable :
    (dns : List (Option Ip)) (opts : Options)
    → length dns < 64
    → Encodable opts
    → Encodable (put_dns dns opts)
unfolding put_dns
put_dns-Encodable [] opts few w = w
put_dns-Encodable (a ∷ dns) opts few w =
    insert-Encodable 6 (encode_ips (a ∷ dns)) opts (omega arith) (omega arith)
      (omega (arith, length-encode_ips (a ∷ dns))) w

lease_options-Encodable :
    (cfg : Config) (time : ℕ) (opts : Options)
    → length cfg.dns < 64
    → Encodable opts
    → Encodable (lease_options cfg time opts)
unfolding lease_options encode_uint32
lease_options-Encodable cfg time opts few w =
    put_address-Encodable 28 cfg.broadcast _ (omega arith) (omega arith) (
      put_dns-Encodable cfg.dns _ few (
        put_address-Encodable 3 cfg.router _ (omega arith) (omega arith) (
          insert-Encodable 1 _ _ (omega arith) (omega arith)
            (omega (arith, length-encode_ip (some (mask cfg.network))))
            (insert-Encodable 51 _ opts (omega arith) (omega arith) (omega arith) w))))

-- A request whose fields a reply can repeat.
pub record IsRepeatable (pkt : Packet) : Type 0 where
  pub xid_fits : pkt.xid < 4294967296
  pub flags_fits : pkt.flags < 65536
  pub chaddr_length : length pkt.chaddr ≡ pkt.hlen
  pub chaddr_fits : pkt.hlen ≤ 16

pub on_wire-IsRepeatable : (p : Packet) → IsPacket p → IsRepeatable (on_wire p)
on_wire-IsRepeatable p w = record {
  xid_fits = w.xid_fits;
  flags_fits = w.flags_fits;
  chaddr_length = w.chaddr_length;
  chaddr_fits = w.chaddr_fits;
}

module _ (server_ip : Option Ip) (pkt : Packet) (cfg : Config) (w : IsRepeatable pkt)
    (few : length cfg.dns < 64) where
  build_reply-Encodable :
      (a : Option Ip) (kind time : ℕ)
      → Encodable (build_reply server_ip pkt cfg a kind time).options
  unfolding build_reply
  build_reply-Encodable none kind time = base_options-Encodable server_ip kind
  build_reply-Encodable (some a) kind time =
      let base = base_options-Encodable server_ip kind in
      let leased = lease_options-Encodable cfg time (base_options server_ip kind) few base in
      elim (Bool-cases (ltb 0 time)) [ inl e ↦ rw e leased | inr e ↦ rw e base ]

  build_reply-IsPacket :
      (a : Option Ip) (kind time : ℕ) → IsPacket (build_reply server_ip pkt cfg a kind time)
  build_reply-IsPacket a kind time = record {
    xid_fits = unfold build_reply in w.xid_fits;
    secs_fits = unfold build_reply in omega arith;
    flags_fits = unfold build_reply in w.flags_fits;
    chaddr_length = unfold build_reply in w.chaddr_length;
    chaddr_fits = unfold build_reply in w.chaddr_fits;
    sname_length = unfold build_reply zeros in refl;
    file_length = unfold build_reply zeros in refl;
    options_fit = build_reply-Encodable a kind time;
  }

  build_nak-IsPacket : IsPacket (build_nak server_ip pkt)
  unfolding build_nak zeros
  build_nak-IsPacket = record {
    xid_fits = w.xid_fits;
    secs_fits = omega arith;
    flags_fits = w.flags_fits;
    chaddr_length = w.chaddr_length;
    chaddr_fits = w.chaddr_fits;
    sname_length = refl;
    file_length = refl;
    options_fit = base_options-Encodable server_ip 6;
  }

  inject_ztp_options-IsPacket :
      (reply : Packet) (profile : Option Profile)
      → IsPacket reply
      → IsPacket (inject_ztp_options reply server_ip pkt.chaddr profile)
  unfolding inject_ztp_options
  inject_ztp_options-IsPacket reply none r = r
  inject_ztp_options-IsPacket reply (some p) r = record {
    xid_fits = r.xid_fits;
    secs_fits = r.secs_fits;
    flags_fits = r.flags_fits;
    chaddr_length = r.chaddr_length;
    chaddr_fits = r.chaddr_fits;
    sname_length = r.sname_length;
    file_length = r.file_length;
    options_fit =
        insert-Encodable 67 _ _ (omega arith) (omega arith)
          (omega (
            arith,
            length-append (hex pkt.chaddr) (b'.' ∷ b'c' ∷ b'f' ∷ b'g' ∷ []),
            length-hex pkt.chaddr,
            w.chaddr_length,
            w.chaddr_fits,
          ))
          (insert-Encodable 66 _ reply.options (omega arith) (omega arith)
            (length-ip_text server_ip) r.options_fit);
  }

  -- A reply of buildReply with the boot options.
  reply-IsPacket :
      (a : Option Ip) (kind time : ℕ) (profile : Option Profile)
      → IsPacket (
          inject_ztp_options
            (build_reply server_ip pkt cfg a kind time)
            server_ip
            pkt.chaddr
            profile)
  reply-IsPacket a kind time profile =
      inject_ztp_options-IsPacket _ profile (build_reply-IsPacket a kind time)

  handle_inform-IsPacket : IsPacket (handle_inform server_ip pkt cfg)
  unfolding handle_inform
  handle_inform-IsPacket =
      let r = build_reply-IsPacket none 5 0 in
      record {
        xid_fits = r.xid_fits;
        secs_fits = r.secs_fits;
        flags_fits = r.flags_fits;
        chaddr_length = r.chaddr_length;
        chaddr_fits = r.chaddr_fits;
        sname_length = r.sname_length;
        file_length = r.file_length;
        options_fit = r.options_fit;
      }

  -- Every reply fits the wire.
  pub dispatch-IsPacket :
      (s : Store) (device : Option Device) (profile : Option Profile) (now : ℕ) (reply : Packet)
      → (dispatch server_ip pkt cfg s device profile now).reply ≡ some reply
      → IsPacket reply
  unfolding dispatch
  dispatch-IsPacket s device profile now reply h =
      let informed : some (handle_inform server_ip pkt cfg) ≡ some reply → IsPacket reply =
        λ e. subst IsPacket (cc (e)) handle_inform-IsPacket in
      let granted =
        λ (a : Ip) (kind : ℕ) (p : Option Profile). reply-IsPacket (some a) kind cfg.lease_time p in
      ground (
        arith,
        h,
        handle_discover_form IsPacket server_ip pkt cfg build_nak-IsPacket granted s device profile
            now reply,
        handle_request_form IsPacket server_ip pkt cfg build_nak-IsPacket granted s device profile
            now reply,
        handle_release-reply pkt cfg s,
        handle_decline-reply pkt cfg s now,
        informed,
      )

  -- Let a packet's transaction id, flags and hardware address fit the wire, and the subnet have
  -- fewer than 64 DNS addresses. Then every reply of Dispatch, whatever the message's type and the
  -- boot options, repeats the packet's transaction id, flags, relay address and hardware address,
  -- and its serialised bytes parse to it, with 0.0.0.0 for a nil address.
  pub dispatch-parse :
      (s : Store) (device : Option Device) (profile : Option Profile) (now : ℕ) (reply : Packet)
      → (dispatch server_ip pkt cfg s device profile now).reply ≡ some reply
      → Echoes pkt reply × (parse (serialize reply) ≡ ok (on_wire reply))
  dispatch-parse s device profile now reply h = (
    dispatch-Echoes server_ip pkt cfg s device profile now reply h,
    parse-serialize reply (dispatch-IsPacket s device profile now reply h),
  )
