-- ===== src/Client/Exchange.antt =====
-- A DISCOVER and a REQUEST for the address that is offered, one behind the other, at the server's
-- handler: what the client's packets and their forms on the wire have in common.
use mydhcp.Common.{
  ℕ, ◌+◌, ◌≡◌, refl, sym, ap, ◌∙◌, List, Option, some, none, true, false, arith, inl, inr,
  Option-cases, ◌=?◌, if_pos, text_eq,
}
use mydhcp.Lease.{Lease, bound}
use mydhcp.Net.{Ip, ip_eq}
use mydhcp.Store.Defs.{Store}
use mydhcp.Store.Ops.{get, first, allocate, next_available}
use mydhcp.Store.Lifecycle.{bound_lease}
use mydhcp.Store.Invariant.{IsValid}
use mydhcp.Subnet.{Config}
use mydhcp.Ztp.Defs.{Device, Profile}
use mydhcp.Dhcp.Options.{msg_discover, msg_request, msg_offer, msg_ack, msg_type, server_id}
use mydhcp.Dhcp.Packet.{Packet, client_id}
use mydhcp.Dhcp.Handler.{
  Outcome, dispatch, handle_discover, handle_request, find_lease, preferred_ip, try_pool,
  try_preferred, for_other_server, wanted_ip, not_static, static_ip,
}
use mydhcp.Dhcp.Handler.Discover.{discover-store, handle_discover_answers, handle_discover-IsValid}
use mydhcp.Dhcp.Handler.Request.{handle_request-Acknowledges}

-- A DISCOVER of a client, and its REQUEST for each address from one server.
pub record AreMessages (server_ip : Ip) (client : List ℕ) (xid : ℕ) (disc : Packet)
    (req : Ip → Packet) : Type 0 where
  pub disc_type : msg_type disc.options ≡ some msg_discover
  pub disc_client : client_id disc ≡ client
  pub disc_xid : disc.xid ≡ xid
  pub req_type : (ip : Ip) → msg_type (req ip).options ≡ some msg_request
  pub req_client : (ip : Ip) → client_id (req ip) ≡ client
  pub req_xid : (ip : Ip) → (req ip).xid ≡ xid
  pub req_server : (ip : Ip) → server_id (req ip).options ≡ some server_ip
  pub req_wants : (ip : Ip) → wanted_ip (req ip) ≡ some ip

pub same_server : (a : Ip) → for_other_server (some a) (some a) ≡ false
unfolding for_other_server
same_server a = if_pos (a =? a) refl false true

pub allowed : (ip : Ip) → not_static none ip ≡ false
unfolding not_static
allowed ip = refl

pub dispatch-discover :
    (server_ip : Option Ip) (pkt : Packet) (cfg : Config) (s : Store) (device : Option Device)
    (profile : Option Profile) (now : ℕ)
    → msg_type pkt.options ≡ some msg_discover
    → dispatch server_ip pkt cfg s device profile now
      ≡ handle_discover server_ip pkt cfg s device profile now
unfolding dispatch
dispatch-discover server_ip pkt cfg s device profile now h = ground (arith, h)

pub dispatch-request :
    (server_ip : Option Ip) (pkt : Packet) (cfg : Config) (s : Store) (device : Option Device)
    (profile : Option Profile) (now : ℕ)
    → msg_type pkt.options ≡ some msg_request
    → dispatch server_ip pkt cfg s device profile now
      ≡ handle_request server_ip pkt cfg s device profile now
unfolding dispatch
dispatch-request server_ip pkt cfg s device profile now h = ground (arith, h)

allocate_lease_time :
    (s : Store) (c : List ℕ) (ip : Ip) (now : ℕ) → (allocate s c ip now).0.lease_time ≡ s.lease_time
unfolding allocate
allocate_lease_time s c ip now = ground arith

next_available_lease_time : (s : Store) → (next_available s).0.lease_time ≡ s.lease_time
unfolding next_available
next_available_lease_time s = ground arith

try_pool_lease_time :
    (s : Store) (c : List ℕ) (now : ℕ) → (try_pool s c now).0.lease_time ≡ s.lease_time
unfolding try_pool
try_pool_lease_time s c now = elim (Option-cases (next_available s).1) [
  | inl e ↦ ground (arith, e, next_available_lease_time s)
  | inr (ip, e) ↦
      ground
        (arith, e, next_available_lease_time s, allocate_lease_time (next_available s).0 c ip now)
]

try_preferred_lease_time :
    (s : Store) (c : List ℕ) (o : Option Ip) (now : ℕ)
    → (try_preferred s c o now).0.lease_time ≡ s.lease_time
unfolding try_preferred
try_preferred_lease_time s c none now = refl
try_preferred_lease_time s c (some ip) now = allocate_lease_time s c ip now

-- A DISCOVER leaves the store's lease time as it is.
find_lease_lease_time :
    (s : Store) (c : List ℕ) (o : Option Ip) (now : ℕ)
    → (find_lease s c o now).0.lease_time ≡ s.lease_time
unfolding find_lease
find_lease_lease_time s c o now = elim (Option-cases (try_preferred s c o now).1) [
  | inl e ↦ ground (
    arith,
    e,
    try_preferred_lease_time s c o now,
    try_pool_lease_time (try_preferred s c o now).0 c now,
  )
  | inr (l, e) ↦ ground (arith, e, try_preferred_lease_time s c o now)
]

-- The devices and profiles are those that the server looks up for the one and the other message.
module _ (server_ip : Ip) (client : List ℕ) (xid : ℕ) (disc : Packet) (req : Ip → Packet)
    (cfg : Config) (s : Store) (device : Option Device) (profile : Option Profile)
    (device' : Ip → Option Device) (profile' : Ip → Option Profile) (now later : ℕ) where
  abbrev pub discovered : Outcome
  discovered = dispatch (some server_ip) disc cfg s device profile now

  -- The REQUEST for an address goes to the store that the DISCOVER left.
  abbrev pub requested : Ip → Outcome
  requested ip =
      dispatch (some server_ip) (req ip) cfg discovered.store (device' ip) (profile' ip) later

  -- The offer and the acknowledgement are replies with the client's transaction id for one address,
  -- which is then bound to the client until the lease time is over.
  pub record IsBound (ip : Ip) (offer ack : Packet) : Type 0 where
    pub offered_reply : discovered.reply ≡ some offer
    pub offered_ip : offer.yiaddr ≡ some ip
    pub offer_type : msg_type offer.options ≡ some msg_offer
    pub offer_passes : (offer.op ≡ 2) × (offer.xid ≡ xid)
    pub acked_reply : (requested ip).reply ≡ some ack
    pub acked_ip : ack.yiaddr ≡ some ip
    pub ack_type : msg_type ack.options ≡ some msg_ack
    pub ack_passes : (ack.op ≡ 2) × (ack.xid ≡ xid)
    pub lease : Lease
    pub held : get (requested ip).store ip ≡ some lease
    pub mine : lease.client_id ≡ client
    pub is_bound : lease.state ≡ bound
    pub until : lease.expires_at ≡ later + s.lease_time

  -- Where the store is well-formed, its pool has an address and no static address is recorded for
  -- the client, the two messages get the client an address.
  pub exchange_binds :
      (free : Ip)
      → AreMessages server_ip client xid disc req
      → IsValid s
      → first s.available ≡ some free
      → static_ip device ≡ none
      → ((ip : Ip) → static_ip (device' ip) ≡ none)
      → (ip : Ip) × (offer : Packet) × (ack : Packet) × IsBound ip offer ack
  exchange_binds free are v pool dynamic dynamic' =
      let (offer, sent, (l, offered_ip, opened, kind, echo)) =
        handle_discover_answers (some server_ip) disc cfg s device profile now free v pool in
      let first_step =
        dispatch-discover (some server_ip) disc cfg s device profile now are.disc_type in
      let left = handle_discover (some server_ip) disc cfg s device profile now in
      let mine : l.client_id ≡ client = opened.mine ∙ are.disc_client in
      let (_, held, (ack, acked, acked_ip, ack_kind, ack_echo)) =
        handle_request-Acknowledges (some server_ip) (req l.ip) cfg left.store (device' l.ip)
          (profile' l.ip) later l.ip l
          (handle_discover-IsValid (some server_ip) disc cfg s device profile now v)
          (ap (λ id. for_other_server id (some server_ip)) (are.req_server l.ip)
            ∙ same_server server_ip)
          (are.req_wants l.ip) (ap (λ a. not_static a l.ip) (dynamic' l.ip) ∙ allowed l.ip)
          (opened.held, mine ∙ sym (are.req_client l.ip), inl opened.open_offer) in
      let second_step : requested l.ip
          ≡ handle_request (some server_ip) (req l.ip) cfg left.store (device' l.ip) (profile' l.ip)
              later =
        dispatch-request (some server_ip) (req l.ip) cfg discovered.store (device' l.ip)
          (profile' l.ip) later (are.req_type l.ip)
        ∙ ap
            (λ (o : Outcome).
              handle_request (some server_ip) (req l.ip) cfg o.store (device' l.ip) (profile' l.ip)
                later)
            first_step in
      (
        l.ip,
        offer,
        ack,
        record {
          offered_reply = ap (λ (o : Outcome). o.reply) first_step ∙ sent;
          offered_ip = offered_ip;
          offer_type = kind.of_kind;
          offer_passes = (echo.is_reply, echo.same_xid ∙ are.disc_xid);
          acked_reply = ap (λ (o : Outcome). o.reply) second_step ∙ acked;
          acked_ip = acked_ip;
          ack_type = ack_kind.of_kind;
          ack_passes = (ack_echo.is_reply, ack_echo.same_xid ∙ are.req_xid l.ip);
          lease = bound_lease left.store later l;
          held = ap (λ (o : Outcome). get o.store l.ip) second_step ∙ held;
          mine = mine;
          is_bound = refl;
          until =
              ap (λ (t : Store). later + t.lease_time)
                (discover-store (some server_ip) disc cfg s device profile now)
              ∙ ap (λ t. later + t)
                  (find_lease_lease_time s (client_id disc) (preferred_ip disc cfg s device) now);
        },
      )
