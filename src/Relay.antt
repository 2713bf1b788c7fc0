-- ===== src/Relay.antt =====
-- internal/relay/relay.go: what the relay makes of the bytes of a request and of a reply. The
-- loop of an interface is in Relay/Loop, the start in Relay/Command.
pub mod Forwarding
pub mod Delivery
pub mod Loop
pub mod Traffic
pub mod Command
use mydhcp.Common.{
  ℕ, ◌+◌, ◌/◌, ◌%◌, List, [], ◌∷◌, ◌++◌, Option, some, none, Bool, true, false, not, ltb, ◌==◌,
  if◌then◌else◌, length, take, drop,
}
use mydhcp.Net.{Ip}
use mydhcp.Dhcp.Packet.{at, uint16_at, ip_at}
use mydhcp.Dhcp.Server.{broadcast_ip}

-- isZero
unfoldable pub is_zero : List ℕ → Bool
is_zero [] = true
is_zero (v ∷ vs) = if v == 0 then is_zero vs else false

-- `copy(pkt[i:], src)` within the packet.
unfoldable pub overwrite : ℕ → List ℕ → List ℕ → List ℕ
overwrite i src pkt = take i pkt ++ (src ++ drop (i + length src) pkt)

-- forwardToServer: the interface's address, if it is an IPv4 address, where no relay is named.
unfoldable pub set_giaddr : Option Ip → List ℕ → List ℕ
unfolding overwrite is_zero
set_giaddr none pkt = pkt
set_giaddr (some a) pkt =
    if is_zero (take 4 (drop 24 pkt))
    then overwrite 24 (a.b0 ∷ a.b1 ∷ a.b2 ∷ a.b3 ∷ []) pkt
    else pkt

-- `pkt[3]++` of a byte.
unfoldable pub count_hop : List ℕ → List ℕ
unfolding overwrite at
count_hop pkt = overwrite 3 ((at pkt 3 + 1) % 256 ∷ []) pkt

-- forwardToServer up to the write: what goes to the server, if anything does.
unfoldable pub forward_to_server : Option Ip → List ℕ → Option (List ℕ)
unfolding set_giaddr count_hop at
forward_to_server agent pkt =
    if ltb (length pkt) 236
    then none
    else (if at pkt 0 == 1 then some (count_hop (set_giaddr agent pkt)) else none)

-- The rest of forwardToServer: whether the bytes that came back are a reply for the client.
unfoldable pub accept_reply : List ℕ → Option (List ℕ)
unfolding at
accept_reply reply =
    if ltb (length reply) 236 then none else (if at reply 0 == 2 then some reply else none)

-- The destination of forwardToClient.
unfoldable pub client_address : List ℕ → Ip
unfolding uint16_at ip_at is_zero broadcast_ip
client_address pkt =
    if not (uint16_at pkt 10 / 32768 % 2 == 0)
    then broadcast_ip
    else (if is_zero (take 4 (drop 16 pkt)) then broadcast_ip else ip_at pkt 16)
