-- ===== src/Dhcp/Handler.antt =====
-- handler.go: what the server does on each kind of message. A handler takes the lease store and
-- the time and returns the store that it leaves, the reply if there is one, and the lease events
-- that it emits.
pub mod Offers
pub mod Replies
pub mod Discover
pub mod Newcomer
pub mod Grant
pub mod Request
pub mod Safety
pub mod Forms
pub mod Fits
pub mod Terms
pub mod Rediscover
use mydhcp.Common.{
  ℕ, ◌+◌, ◌/◌, ◌%◌, List, [], ◌∷◌, ◌++◌, Option, some, none, Bool, true, false, ◌&&◌, not, ltb,
  ◌==◌, if◌then◌else◌, ite, ◌=?◌, nat_eq, text_eq, Result, ok, err, replicate,
}
use mydhcp.Common.Maps.{insert}
use mydhcp.Lease.{Lease, State, reserved, offered, bound, expired, declined, occupies}
use mydhcp.Net.{Ip, ip_eq, uint32_to_ip}
use mydhcp.Net.Cidr.{IpNet, contains, mask}
use mydhcp.Plugin.{EventType, LeaseEvent}
use mydhcp.Store.Defs.{Store}
use mydhcp.Store.Ops.{allocate, renew, release, decline, get, get_by_client, next_available}
use mydhcp.Subnet.{Config, is_unspecified}
use mydhcp.Text.{hex, dotted}
use mydhcp.Ztp.Defs.{Device, Profile}
use mydhcp.Dhcp.Options.{
  Options, opt_subnet_mask, opt_router, opt_dns, opt_broadcast_address, opt_lease_time,
  opt_msg_type, opt_server_id, opt_tftp_server, opt_bootfile, msg_discover, msg_offer, msg_request,
  msg_decline, msg_ack, msg_nak, msg_release, msg_inform, msg_type, requested_ip, server_id,
  encode_ip, encode_ips, encode_uint32,
}
use mydhcp.Dhcp.Packet.{Packet, client_id}
use mydhcp.Dhcp.Reply.{
  put_address, put_dns, base_options, lease_options, zeros, build_reply, build_nak, ip_text,
  inject_ztp_options, lease_event,
}

-- What a handler leaves and returns.
pub record Outcome : Type 0 where
  pub store : Store
  pub reply : Option Packet
  pub events : List LeaseEvent

-- Nothing but the store.
abbrev pub silent : Store → Outcome
silent s = record { store = s; reply = none; events = [] }

-- The static address of a device that has one.
unfoldable pub static_ip : Option Device → Option Ip
static_ip none = none
static_ip (some d) = d.static_ip

-- The address of the client's current lease, if the lease occupies it.
unfoldable pub current_ip : Option Lease → Option Ip
unfolding occupies
current_ip none = none
current_ip (some l) = if occupies l.state then some l.ip else none

-- The address that the client asks for, if the subnet's network contains it.
unfoldable pub asked_ip : Config → Option Ip → Option Ip
asked_ip cfg none = none
asked_ip cfg (some a) = if contains cfg.network a then some a else none

unfoldable pub or_else {ℓ} : {A : Type ℓ} → Option A → Option A → Option A
or_else none b = b
or_else (some a) b = some a

-- The first part of handleDiscover: the static address, else the current one, else the one asked
-- for.
unfoldable pub preferred_ip : Packet → Config → Store → Option Device → Option Ip
unfolding static_ip current_ip asked_ip or_else client_id
preferred_ip pkt cfg s device = or_else (static_ip device) (
    or_else (current_ip (get_by_client s (client_id pkt)))
      (asked_ip cfg (requested_ip pkt.options)))

unfoldable pub lease_of {ℓ} : {E : Type ℓ} → Result E Lease → Option Lease
lease_of (ok l) = some l
lease_of (err e) = none

-- Allocate of the preferred address; `none` if there is none or it is refused.
unfoldable pub try_preferred : Store → List ℕ → Option Ip → ℕ → Store × Option Lease
unfolding lease_of
try_preferred s c none now = (s, none)
try_preferred s c (some ip) now = let (s', r) = allocate s c ip now in (s', lease_of r)

-- Allocate of the pool's next address.
unfoldable pub try_pool : Store → List ℕ → ℕ → Store × Option Lease
unfolding lease_of
try_pool s c now =
    let (s', next) = next_available s in
    elim next [ none ↦ (s', none) | some ip ↦ let (t, r) = allocate s' c ip now in (t, lease_of r) ]

unfoldable pub find_lease : Store → List ℕ → Option Ip → ℕ → Store × Option Lease
unfolding try_preferred try_pool
find_lease s c preferred now =
    let (s', found) = try_preferred s c preferred now in
    elim found [ none ↦ try_pool s' c now | some l ↦ (s', some l) ]

unfoldable pub handle_discover :
    Option Ip → Packet → Config → Store → Option Device → Option Profile → ℕ → Outcome
handle_discover server_ip pkt cfg s device profile now =
    let (s', found) = find_lease s (client_id pkt) (preferred_ip pkt cfg s device) now in
    elim found [
      | none ↦ silent s'
      | some l ↦ record {
        store = s';
        reply = some (
            inject_ztp_options (build_reply server_ip pkt cfg (some l.ip) msg_offer cfg.lease_time)
              server_ip pkt.chaddr profile);
        events = lease_event EventType.offered pkt cfg l.ip l.expires_at ∷ [];
      }
    ]

-- `svrID != nil && !svrID.Equal(h.serverIP)`
unfoldable pub for_other_server : Option Ip → Option Ip → Bool
for_other_server none server_ip = false
for_other_server (some id) none = true
for_other_server (some id) (some server_ip) = ite (id =? server_ip) false true

-- The address of a REQUEST: the client's own, else the one that it asks for.
unfoldable pub wanted_ip : Packet → Option Ip
unfolding is_unspecified or_else
wanted_ip pkt = elim pkt.ciaddr [
  | none ↦ requested_ip pkt.options
  | some a ↦ if is_unspecified a then requested_ip pkt.options else some a
]

-- `device != nil && device.StaticIP != nil && !device.StaticIP.Equal(requestedIP)`
unfoldable pub not_static : Option Ip → Ip → Bool
not_static none ip = false
not_static (some a) ip = ite (a =? ip) false true

unfoldable pub is_bound : Option Lease → Bool
is_bound none = false
is_bound (some l) = elim l.state [
  | reserved ↦ false
  | offered ↦ false
  | bound ↦ true
  | expired ↦ false
  | declined ↦ false
]

-- The part of handleRequest from `store.Get` on.
unfoldable pub grant_request :
    Option Ip → Packet → Config → Store → Option Profile → Ip → ℕ → Outcome
grant_request server_ip pkt cfg s profile ip now =
    let renewal = is_bound (get s ip) in
    let (s', r) = renew s (client_id pkt) ip now in
    elim r [
      | err e ↦ record { store = s'; reply = some (build_nak server_ip pkt); events = [] }
      | ok l ↦ record {
        store = s';
        reply = some (
            inject_ztp_options (build_reply server_ip pkt cfg (some l.ip) msg_ack cfg.lease_time)
              server_ip pkt.chaddr profile);
        events =
            lease_event (if renewal then EventType.renewed else EventType.assigned) pkt cfg l.ip
              l.expires_at
            ∷ [];
      }
    ]

unfoldable pub handle_request :
    Option Ip → Packet → Config → Store → Option Device → Option Profile → ℕ → Outcome
handle_request server_ip pkt cfg s device profile now =
    let nak : Outcome = record { store = s; reply = some (build_nak server_ip pkt); events = [] } in
    if for_other_server (server_id pkt.options) server_ip then silent s else elim (wanted_ip pkt) [
      | none ↦ nak
      | some ip ↦
          if not_static (static_ip device) ip
          then nak
          else grant_request server_ip pkt cfg s profile ip now
    ]

-- `ip == nil || ip.IsUnspecified()`, as the address that is left.
unfoldable pub specified : Option Ip → Option Ip
unfolding is_unspecified
specified none = none
specified (some a) = if is_unspecified a then none else some a

unfoldable pub handle_release : Packet → Config → Store → Outcome
handle_release pkt cfg s = elim (specified pkt.ciaddr) [
  | none ↦ silent s
  | some ip ↦
      let (s', r) = release s (client_id pkt) ip in
      elim r [
        | err e ↦ silent s'
        | ok u ↦ record {
          store = s';
          reply = none;
          events = lease_event EventType.released pkt cfg ip 0 ∷ [];
        }
      ]
]

unfoldable pub handle_decline : Packet → Config → Store → ℕ → Outcome
handle_decline pkt cfg s now = elim (specified (or_else (requested_ip pkt.options) pkt.ciaddr)) [
  | none ↦ silent s
  | some ip ↦
      let (s', r) = decline s ip now in
      elim r [
        | err e ↦ silent s'
        | ok u ↦ record {
          store = s';
          reply = none;
          events = lease_event EventType.declined pkt cfg ip 0 ∷ [];
        }
      ]
]

unfoldable pub handle_inform : Option Ip → Packet → Config → Packet
unfolding build_reply
handle_inform server_ip pkt cfg = record (build_reply server_ip pkt cfg none msg_ack 0) {
  yiaddr = some (uint32_to_ip 0);
}

-- Dispatch, by the type of the message.
unfoldable pub dispatch :
    Option Ip → Packet → Config → Store → Option Device → Option Profile → ℕ → Outcome
dispatch server_ip pkt cfg s device profile now = elim (msg_type pkt.options) [
  | none ↦ silent s
  | some kind ↦
      if kind == msg_discover
      then handle_discover server_ip pkt cfg s device profile now
      else if kind == msg_request
      then handle_request server_ip pkt cfg s device profile now
      else if kind == msg_release
      then handle_release pkt cfg s
      else if kind == msg_decline
      then handle_decline pkt cfg s now
      else if kind == msg_inform
      then record { store = s; reply = some (handle_inform server_ip pkt cfg); events = [] }
      else silent s
]
