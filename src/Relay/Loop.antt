-- ===== src/Relay/Loop.antt =====
-- internal/relay/relay.go, runInterface and what a goroutine does with one datagram.
use mydhcp.Common.{ℕ, List, [], ◌∷◌, Option, some, none, Bool, true, false}
use mydhcp.Net.{Ip}
use mydhcp.Dhcp.Server.{Datagram}
use mydhcp.Relay.{forward_to_server, accept_reply, client_address}

-- An interface that the relay listens on; its address is nil where it is no IPv4 address.
pub record Interface : Type 0 where
  pub name : List ℕ
  pub agent_ip : Option Ip

-- The address that ListenUDP is given.
unfoldable pub listen_address : Interface → Option Ip × ℕ
listen_address i = (i.agent_ip, 67)

-- What becomes of the connection to the server: it is refused, the write fails, no reply comes, or
-- the bytes of a reply, with whether the socket to the client then takes them.
pub data Upstream : Type 0 where
  dial_fails write_fails no_reply : Upstream
  replies : List ℕ → Bool → Upstream

-- What a goroutine writes to the server and what it sends to the client.
pub record Relayed : Type 0 where
  pub to_server : List (List ℕ)
  pub to_client : List Datagram

unfoldable pub forward_to_client : Bool → List ℕ → List Datagram
unfolding client_address
forward_to_client true pkt = record { address = client_address pkt; port = 68; payload = pkt } ∷ []
forward_to_client false pkt = []

-- forwardToServer as a whole; a write that fails has written nothing.
unfoldable pub relay_packet : Interface → List ℕ → Upstream → Relayed
unfolding forward_to_server accept_reply forward_to_client
relay_packet i pkt up = elim (forward_to_server i.agent_ip pkt) [
  | none ↦ record { to_server = []; to_client = [] }
  | some out ↦ elim up [
    | dial_fails ↦ record { to_server = []; to_client = [] }
    | write_fails ↦ record { to_server = []; to_client = [] }
    | no_reply ↦ record { to_server = out ∷ []; to_client = [] }
    | replies bytes sends ↦ record {
      to_server = out ∷ [];
      to_client = elim (accept_reply bytes) [
        | none ↦ []
        | some reply ↦ forward_to_client sends reply
      ];
    }
  ]
]

-- What ReadFromUDP comes to: a datagram, with what the connection for it will come to, an error, or
-- an error after the relay is told to stop.
pub data Read : Type 0 where
  receives : List ℕ → Upstream → Read
  fails stopped : Read

-- The goroutines that the loop of runInterface starts, each with a copy of its datagram.
unfoldable pub run_interface : Interface → List Read → List Relayed
unfolding relay_packet
run_interface i [] = []
run_interface i (stopped ∷ reads) = []
run_interface i (fails ∷ reads) = run_interface i reads
run_interface i (receives pkt up ∷ reads) = relay_packet i pkt up ∷ run_interface i reads
