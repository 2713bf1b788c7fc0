-- ===== src/Dhcp/Handler/Safety.antt =====
-- What no message can do, whatever its type: break the store, or answer for another packet.
use mydhcp.Common.{ℕ, ◌≡◌, subst, Option, some, none, arith, Option-cases, inl, inr}
use mydhcp.Net.{Ip}
use mydhcp.Store.Defs.{Store}
use mydhcp.Store.Invariant.Steps.{release-IsValid, decline-IsValid}
use mydhcp.Store.Invariant.{IsValid}
use mydhcp.Subnet.{Config}
use mydhcp.Ztp.Defs.{Device, Profile}
use mydhcp.Dhcp.Options.{requested_ip}
use mydhcp.Dhcp.Packet.{Packet, client_id}
use mydhcp.Dhcp.Handler.{
  handle_release, handle_decline, handle_inform, dispatch, specified, or_else,
}
use mydhcp.Dhcp.Handler.Discover.{handle_discover-IsValid, handle_discover-Echoes}
use mydhcp.Dhcp.Handler.Request.{handle_request-IsValid, handle_request-Echoes}
use mydhcp.Dhcp.Handler.Replies.{Echoes, handle_inform-Echoes}

handle_release-IsValid :
    (pkt : Packet) (cfg : Config) (s : Store) → IsValid s → IsValid (handle_release pkt cfg s).store
unfolding handle_release
handle_release-IsValid pkt cfg s v = elim (Option-cases (specified pkt.ciaddr)) [
  | inl e ↦ ground (arith, e, v)
  | inr (ip, e) ↦ ground (arith, e, release-IsValid s (client_id pkt) ip v)
]

handle_decline-IsValid :
    (pkt : Packet) (cfg : Config) (s : Store) (now : ℕ)
    → IsValid s
    → IsValid (handle_decline pkt cfg s now).store
unfolding handle_decline
handle_decline-IsValid pkt cfg s now v =
    elim (Option-cases (specified (or_else (requested_ip pkt.options) pkt.ciaddr))) [
      | inl e ↦ ground (arith, e, v)
      | inr (ip, e) ↦ ground (arith, e, decline-IsValid s ip now v)
    ]

-- No message breaks the store.
pub dispatch-IsValid :
    (server_ip : Option Ip) (pkt : Packet) (cfg : Config) (s : Store) (device : Option Device)
    → (profile : Option Profile) (now : ℕ) → IsValid s
    → IsValid (dispatch server_ip pkt cfg s device profile now).store
unfolding dispatch
dispatch-IsValid server_ip pkt cfg s device profile now v = ground (
  arith,
  v,
  handle_discover-IsValid server_ip pkt cfg s device profile now v,
  handle_request-IsValid server_ip pkt cfg s device profile now v,
  handle_release-IsValid pkt cfg s v,
  handle_decline-IsValid pkt cfg s now v,
)

pub handle_release-reply :
    (pkt : Packet) (cfg : Config) (s : Store) → (handle_release pkt cfg s).reply ≡ none
unfolding handle_release
handle_release-reply pkt cfg s = ground arith

pub handle_decline-reply :
    (pkt : Packet) (cfg : Config) (s : Store) (now : ℕ)
    → (handle_decline pkt cfg s now).reply ≡ none
unfolding handle_decline
handle_decline-reply pkt cfg s now = ground arith

-- Every reply of Dispatch, whatever the message's type, is a reply operation that repeats the
-- packet's transaction id, flags, relay address and hardware address.
pub dispatch-Echoes :
    (server_ip : Option Ip) (pkt : Packet) (cfg : Config) (s : Store) (device : Option Device)
    → (profile : Option Profile) (now : ℕ) (reply : Packet)
    → (dispatch server_ip pkt cfg s device profile now).reply ≡ some reply
    → Echoes pkt reply
unfolding dispatch
dispatch-Echoes server_ip pkt cfg s device profile now reply h =
    let informed : some (handle_inform server_ip pkt cfg) ≡ some reply → Echoes pkt reply =
      λ e. subst (Echoes pkt) (cc (e)) (handle_inform-Echoes server_ip pkt cfg) in
    ground (
      arith,
      h,
      handle_discover-Echoes server_ip pkt cfg s device profile now reply,
      handle_request-Echoes server_ip pkt cfg s device profile now reply,
      handle_release-reply pkt cfg s,
      handle_decline-reply pkt cfg s now,
      informed,
    )
