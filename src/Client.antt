-- ===== src/Client.antt =====
-- cmd/dhcpclient/main.go: the packets that the test client sends, which replies it takes, and what
-- it reads from them. A read comes to the datagrams that arrive before the deadline, in their order.
-- The scenarios are in Client/Scenarios, the flood in Client/Flood, the flags in Client/Command.
pub mod Packets
pub mod Exchange
pub mod Wire
pub mod Release
pub mod World
pub mod Scenarios
pub mod Network
pub mod Reads
pub mod Steps
pub mod Session
pub mod Return
pub mod Flood
pub mod Command
use mydhcp.Common.{
  ℕ, ◌+◌, ◌*◌, ◌%◌, List, [], ◌∷◌, Option, some, none, ite, ◌=?◌, text_eq, nat_eq, ◌==◌, ◌||◌, ◌&&◌,
  not, ltb, ◌++◌, replicate, if◌then◌else◌, ok, err, length,
}
use mydhcp.Common.Maps.{Map, lookup, insert, delete}
use mydhcp.Net.{Ip}
use mydhcp.Dhcp.Options.{
  Options, opt_msg_type, opt_server_id, opt_requested_ip, opt_vendor_class, opt_lease_time,
  msg_discover, msg_request, msg_decline, msg_release, msg_nak, msg_offer, msg_ack, msg_type,
  server_id, encode_ip,
}
use mydhcp.Dhcp.Packet.{Packet, parse, uint32_at}

-- A packet of the client. A field that a literal does not name is zero or nil.
unfoldable pub client_packet : List ℕ → ℕ → ℕ → Option Ip → Options → Packet
client_packet mac xid flags ciaddr options = record {
  op = 1;
  htype = 1;
  hlen = 6;
  hops = 0;
  xid = xid;
  secs = 0;
  flags = flags;
  ciaddr = ciaddr;
  yiaddr = none;
  siaddr = none;
  giaddr = none;
  chaddr = mac;
  sname = replicate 64 0;
  file = replicate 128 0;
  options = options;
}

-- `if vendor != "" { ... }` and `if reqIP != nil { ... }`
unfoldable pub put_vendor : List ℕ → Options → Options
put_vendor vendor opts = ite (vendor =? []) opts (insert opt_vendor_class vendor opts)

unfoldable pub put_requested : Option Ip → Options → Options
unfolding encode_ip
put_requested none opts = opts
put_requested (some a) opts = insert opt_requested_ip (encode_ip (some a)) opts

-- The packet of mustDiscover, and without the last two arguments of dora.
unfoldable pub build_discover : List ℕ → ℕ → Option Ip → List ℕ → Packet
unfolding client_packet put_vendor put_requested
build_discover mac xid req_ip vendor =
    client_packet mac xid 32768 none
      (put_requested req_ip (put_vendor vendor (insert opt_msg_type (msg_discover ∷ []) [])))

unfoldable pub build_request : List ℕ → ℕ → Option Ip → Option Ip → List ℕ → Packet
unfolding client_packet put_vendor encode_ip
build_request mac xid server_ip requested vendor = client_packet mac xid 32768 none (
    put_vendor vendor (
      insert opt_requested_ip (encode_ip requested)
        (insert opt_server_id (encode_ip server_ip) (insert opt_msg_type (msg_request ∷ []) []))))

-- The packets of runDecline, runRelease and runRenew.
unfoldable pub build_decline : List ℕ → ℕ → Option Ip → Option Ip → Packet
unfolding client_packet encode_ip
build_decline mac xid server_ip ip = client_packet mac xid 32768 none (
    insert opt_requested_ip (encode_ip ip)
      (insert opt_server_id (encode_ip server_ip) (insert opt_msg_type (msg_decline ∷ []) [])))

unfoldable pub build_release : List ℕ → ℕ → Option Ip → Option Ip → Packet
unfolding client_packet encode_ip
build_release mac xid server_ip ip =
    client_packet mac xid 0 ip
      (insert opt_server_id (encode_ip server_ip) (insert opt_msg_type (msg_release ∷ []) []))

unfoldable pub build_renew : List ℕ → ℕ → Option Ip → Option Ip → Packet
unfolding client_packet encode_ip
build_renew mac xid server_ip ip =
    client_packet mac xid 32768 ip
      (insert opt_server_id (encode_ip server_ip) (insert opt_msg_type (msg_request ∷ []) []))

-- recv: the first datagram that is a reply with the transaction id; `none` at the deadline.
unfoldable pub recv : ℕ → List (List ℕ) → Option Packet
recv xid [] = none
recv xid (bytes ∷ rest) =
    let later = recv xid rest in
    elim (parse bytes) [
      | err e ↦ later
      | ok pkt ↦ if not (pkt.op == 2) || not (pkt.xid == xid) then later else some pkt
    ]

-- The datagrams that recv leaves unread.
unfoldable pub unread : ℕ → List (List ℕ) → List (List ℕ)
unread xid [] = []
unread xid (bytes ∷ rest) =
    let later = unread xid rest in
    elim (parse bytes) [
      | err e ↦ later
      | ok pkt ↦ if not (pkt.op == 2) || not (pkt.xid == xid) then later else rest
    ]

-- mustRequest after the reply: a NAK ends the program.
unfoldable pub accept_ack : Packet → Option Packet
accept_ack reply = elim (msg_type reply.options) [
  | none ↦ some reply
  | some kind ↦ if kind == msg_nak then none else some reply
]

-- What dora takes from its channel.
pub data Received : Type 0 where
  received : Packet → Received
  refused timed_out : Received

unfoldable pub recv_from_chan : ℕ → ℕ → List Packet → Received
recv_from_chan xid want [] = timed_out
recv_from_chan xid want (pkt ∷ pkts) =
    let later = recv_from_chan xid want pkts in
    if pkt.xid == xid
    then elim (msg_type pkt.options) [
      | none ↦ later
      | some kind ↦
          if kind == want then received pkt else (if kind == msg_nak then refused else later)
    ]
    else later

-- bumpIP
unfoldable pub bump_ip : Ip → ℕ → Ip
bump_ip a delta = record a { b3 = (a.b3 + delta) % 256 }

-- leaseTime, in nanoseconds.
unfoldable pub lease_time : Packet → ℕ
unfolding uint32_at
lease_time pkt = elim (lookup opt_lease_time pkt.options) [
  | none ↦ 0
  | some v ↦ if ltb (length v) 4 then 0 else uint32_at v 0 * 1000000000
]

-- The dispatcher of the flood: the packets that wait for each transaction id.
abbrev pub Waiters : Type 0
Waiters = Map ℕ (List Packet)

unfoldable pub subscribe : ℕ → Waiters → Waiters
subscribe xid w = insert xid [] w

unfoldable pub unsubscribe : ℕ → Waiters → Waiters
unsubscribe xid w = delete xid w

-- `select { case ch <- pkt: default: }` on a channel for four packets.
unfoldable pub push : List Packet → Packet → List Packet
push queue pkt = if ltb (length queue) 4 then queue ++ pkt ∷ [] else queue

-- A round of readLoop.
unfoldable pub route : Waiters → List ℕ → Waiters
unfolding push
route w bytes = elim (parse bytes) [
  | err e ↦ w
  | ok pkt ↦
      if not (pkt.op == 2)
      then w
      else elim (lookup pkt.xid w) [ none ↦ w | some queue ↦ insert pkt.xid (push queue pkt) w ]
]
