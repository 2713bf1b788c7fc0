-- ===== src/Dhcp/Server/Loop.antt =====
-- server.go, Run: the loop that reads datagrams, on the results of its reads. A handler runs to its
-- end before the next read.
use mydhcp.Common.{
  ℕ, ◌≡◌, refl, ap, List, [], ◌∷◌, ◌++◌, Option, some, none, Bool, true, false, not, ◌==◌, arith,
  if◌then◌else◌, Bool-cases, Result-cases, inl, inr, ok, err,
}
use mydhcp.Net.{Ip}
use mydhcp.Plugin.{LeaseEvent}
use mydhcp.Subnet.{Manager}
use mydhcp.Subnet.Sound.{IsSound}
use mydhcp.Ztp.Defs.{Ztp}
use mydhcp.Dhcp.Packet.{parse}
use mydhcp.Dhcp.Server.{Datagram, Served, handle_parsed, handle_packet}
use mydhcp.Dhcp.Server.Sound.{handle_packet-IsSound}

-- What ReadFrom comes to: a datagram at a time, an error, or an error after the server is told to
-- stop.
pub data Read : Type 0 where
  receives : List ℕ → ℕ → Read
  fails : Read
  stopped : Read

-- What the loop leaves and causes.
pub record Log : Type 0 where
  pub subnets : Manager
  pub sent : List Datagram
  pub events : List LeaseEvent

unfoldable pub sent_of : Option Datagram → List Datagram
sent_of none = []
sent_of (some d) = d ∷ []

-- What a datagram causes comes before what the later ones cause.
unfoldable pub then_log : Served → Log → Log
unfolding sent_of
then_log one later = record {
  subnets = later.subnets;
  sent = sent_of one.sent ++ later.sent;
  events = one.events ++ later.events;
}

unfoldable pub read_loop : Option Ip → Option Ztp → Manager → List Read → Log
unfolding then_log
read_loop server_ip z m [] = record { subnets = m; sent = []; events = [] }
read_loop server_ip z m (stopped ∷ reads) = record { subnets = m; sent = []; events = [] }
read_loop server_ip z m (fails ∷ reads) = read_loop server_ip z m reads
read_loop server_ip z m (receives bytes now ∷ reads) =
    let one = handle_packet server_ip z m bytes now in
    then_log one (read_loop server_ip z one.subnets reads)

-- A read that is an error, no DHCP packet, or a packet that is not a request.
unfoldable pub is_noise : Read → Bool
is_noise stopped = false
is_noise fails = true
is_noise (receives bytes now) = elim (parse bytes) [ err e ↦ true | ok pkt ↦ not (pkt.op == 1) ]

unfoldable pub without_noise : List Read → List Read
unfolding is_noise
without_noise [] = []
without_noise (r ∷ reads) = let rest = without_noise reads in if is_noise r then rest else r ∷ rest

-- A datagram that is noise changes nothing and causes nothing.
noise_served :
    (server_ip : Option Ip) (z : Option Ztp) (m : Manager) (bytes : List ℕ) (now : ℕ)
    → is_noise (receives bytes now) ≡ true
    → handle_packet server_ip z m bytes now ≡ record { subnets = m; sent = none; events = [] }
unfolding is_noise handle_packet handle_parsed
noise_served server_ip z m bytes now noise = elim (Result-cases (parse bytes)) [
  | inr (e, unread) ↦ ground (arith, unread)
  | inl (pkt, read) ↦ elim (Bool-cases (pkt.op == 1)) [
    | inl request ↦ absurd (ground (arith, read, request, noise))
    | inr other ↦ ground (arith, read, other)
  ]
]

-- What the read loop sends, emits and leaves of the subnets is what it does on its reads without
-- those that are errors, no DHCP packets, or packets that are not requests, whatever comes in and
-- in whatever order.
pub read_loop-without_noise :
    (server_ip : Option Ip) (z : Option Ztp) (m : Manager) (reads : List Read)
    → read_loop server_ip z m reads ≡ read_loop server_ip z m (without_noise reads)
unfolding read_loop without_noise then_log sent_of
read_loop-without_noise server_ip z m [] = refl
read_loop-without_noise server_ip z m (stopped ∷ reads) = refl
read_loop-without_noise server_ip z m (fails ∷ reads) = read_loop-without_noise server_ip z m reads
read_loop-without_noise server_ip z m (receives bytes now ∷ reads) =
    elim (Bool-cases (is_noise (receives bytes now))) [
      | inl noise ↦
          rw (noise, noise_served server_ip z m bytes now noise)
            (read_loop-without_noise server_ip z m reads)
      | inr request ↦ rw request (
          ap (then_log (handle_packet server_ip z m bytes now)) (
            read_loop-without_noise server_ip z (handle_packet server_ip z m bytes now).subnets
              reads))
    ]

-- The subnets and their stores are well-formed after any reads.
pub read_loop-IsSound :
    (server_ip : Option Ip) (z : Option Ztp) (m : Manager) (reads : List Read)
    → IsSound m
    → IsSound (read_loop server_ip z m reads).subnets
unfolding read_loop then_log
read_loop-IsSound server_ip z m [] sound = sound
read_loop-IsSound server_ip z m (stopped ∷ reads) sound = sound
read_loop-IsSound server_ip z m (fails ∷ reads) sound = read_loop-IsSound server_ip z m reads sound
read_loop-IsSound server_ip z m (receives bytes now ∷ reads) sound =
    read_loop-IsSound server_ip z (handle_packet server_ip z m bytes now).subnets reads
      (handle_packet-IsSound server_ip z m bytes now sound)
