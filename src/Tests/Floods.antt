-- ===== src/Tests/Floods.antt =====
-- The theorems on the channels of the flood and of the dashboard at work.
use mydhcp.Common.{ℕ, ◌≡◌, List, [], ◌∷◌, some, none, arith, ok, nat_eq}
use mydhcp.Common.Maps.{lookup, insert}
use mydhcp.Dhcp.Packet.{Packet, parse, serialize}
use mydhcp.Dhcp.Packet.RoundTrip.{on_wire}
use mydhcp.Client.Flood.{
  run_flood, subscribes, arrives, happens, FloodRun, flood_result, count_results,
}
use mydhcp.Client.Flood.Channels.{IsQueue, channels-IsQueue}
use mydhcp.Dashboard.Stream.{
  Tick, emits, takes, beats, gone, event, heartbeat, handle_sse, dropped, IsStreamed,
  handle_sse-IsStreamed,
}
use mydhcp.Tests.Messages.{alice_offer, offer_reads}
use mydhcp.Tests.Nets.{discover}
use mydhcp.Client.Flood.Counting.{run_flood_lem}

-- A client whose OFFER does not come, and one whose write is refused.
abbrev runs : List FloodRun
runs =
    record {
      index = b'0' ∷ b'0' ∷ [];
      mac = 2 ∷ 0 ∷ 0 ∷ 0 ∷ 0 ∷ 1 ∷ [];
      xid = 5;
      first_error = none;
      offers = [];
      second_error = none;
      acks = [];
    }
    ∷ record {
      index = b'0' ∷ b'1' ∷ [];
      mac = 2 ∷ 0 ∷ 0 ∷ 0 ∷ 0 ∷ 2 ∷ [];
      xid = 6;
      first_error = some (b'r' ∷ b'e' ∷ b'f' ∷ b'u' ∷ b's' ∷ b'e' ∷ b'd' ∷ []);
      offers = [];
      second_error = none;
      acks = [];
    }
    ∷ []

run_flood_lem_example : run_flood runs ≡ (2, 0)
run_flood_lem_example = run_flood_lem runs (tt, tt, (λ h. ground (arith, h), tt, tt))

one_waits :
    (xid : ℕ) (bytes : List ℕ) (p : Packet)
    → parse bytes ≡ ok p
    → p.op ≡ 2
    → p.xid ≡ xid
    → lookup xid (happens [] (subscribes xid ∷ arrives bytes ∷ [])) ≡ some (p ∷ [])
unfolding happens mydhcp.Client.Flood.happen lookup insert mydhcp.Client.route
    mydhcp.Client.subscribe mydhcp.Client.push
one_waits xid bytes p read reply mine = ground (arith, read, reply, mine)

channels-IsQueue_example : IsQueue discover.xid (on_wire alice_offer ∷ [])
channels-IsQueue_example =
    channels-IsQueue (subscribes discover.xid ∷ arrives (serialize alice_offer) ∷ []) discover.xid
      (on_wire alice_offer ∷ [])
      (one_waits discover.xid (serialize alice_offer) (on_wire alice_offer) offer_reads.1
        offer_reads.0.is_reply offer_reads.0.same_xid)

-- An event, a heartbeat, two more events and the end of the client.
abbrev page_ticks : List Tick
page_ticks = emits (1 ∷ []) ∷ takes ∷ beats ∷ emits (2 ∷ []) ∷ emits (3 ∷ []) ∷ takes ∷ gone ∷ []

handle_sse-IsStreamed_example :
    IsStreamed
      ((1 ∷ []) ∷ (2 ∷ []) ∷ (3 ∷ []) ∷ [])
      (event (1 ∷ []) ∷ heartbeat ∷ event (2 ∷ []) ∷ [], (3 ∷ []) ∷ [])
      0
unfolding handle_sse dropped mydhcp.Dashboard.push
handle_sse-IsStreamed_example = handle_sse-IsStreamed [] page_ticks (ground arith)
