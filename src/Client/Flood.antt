-- ===== src/Client/Flood.antt =====
-- cmd/dhcpclient/main.go, runFlood: many clients on one socket, a dispatcher that hands each its
-- replies, and the count of the results.
pub mod Channels
pub mod Counting
use mydhcp.Common.{
  map, ℕ, ◌+◌, ◌-◌, List, [], ◌∷◌, ◌++◌, Option, some, none, Bool, true, false, ite, ◌=?◌, text_eq,
  nat_eq, ltb, length, drop, if◌then◌else◌, Result, ok, err,
}
use mydhcp.Common.Maps.{lookup, insert}
use mydhcp.Net.{Ip}
use mydhcp.Text.{colon_hex}
use mydhcp.Dhcp.Options.{msg_offer, msg_ack, server_id}
use mydhcp.Dhcp.Packet.{Packet}
use mydhcp.Dhcp.Reply.{ip_text}
use mydhcp.Client.{
  Waiters, subscribe, unsubscribe, route, build_discover, build_request, Received, received,
  refused, timed_out, recv_from_chan,
}

-- What happens to the channels: a client starts or ends, a datagram arrives, or a client takes the
-- packet at the head of its channel.
pub data Event : Type 0 where
  subscribes unsubscribes takes : ℕ → Event
  arrives : List ℕ → Event

unfoldable pub take_head : List Packet → List Packet
take_head [] = []
take_head (p ∷ queue) = queue

unfoldable pub happen : Waiters → Event → Waiters
unfolding subscribe unsubscribe take_head
happen w (subscribes xid) = subscribe xid w
happen w (unsubscribes xid) = unsubscribe xid w
happen w (arrives bytes) = route w bytes
happen w (takes xid) = elim (lookup xid w) [
  | none ↦ w
  | some queue ↦ insert xid (take_head queue) w
]

unfoldable pub happens : Waiters → List Event → Waiters
happens w [] = w
happens w (e ∷ events) = happens (happen w e) events

-- The errors of dora, with the text of a write's error and of what recvFromChan came to.
pub data DoraError : Type 0 where
  send_discover no_offer send_request no_ack : List ℕ → DoraError

abbrev pub text_timeout : List ℕ
text_timeout = b't' ∷ b'i' ∷ b'm' ∷ b'e' ∷ b'o' ∷ b'u' ∷ b't' ∷ []

abbrev pub text_got_nak : List ℕ
text_got_nak = b'g' ∷ b'o' ∷ b't' ∷ b' ' ∷ b'N' ∷ b'A' ∷ b'K' ∷ []

unfoldable pub packet_or : (List ℕ → DoraError) → Received → Result DoraError Packet
packet_or e (received pkt) = ok pkt
packet_or e refused = err (e text_got_nak)
packet_or e timed_out = err (e text_timeout)

-- The part of dora behind the OFFER.
unfoldable pub request_offered :
    List ℕ → ℕ → Packet → Option (List ℕ) → List Packet → List Packet × Result DoraError (Option Ip)
unfolding packet_or
request_offered mac xid offer second_error acks =
    let req = build_request mac xid (server_id offer.options) offer.yiaddr [] in
    elim second_error [
      | some text ↦ ([], err (send_request text))
      | none ↦ (
        req ∷ [],
        elim (packet_or no_ack (recv_from_chan xid msg_ack acks)) [
          | err e ↦ err e
          | ok ack ↦ ok ack.yiaddr
        ],
      )
    ]

-- dora: the packets that it writes, and the address or the error. The writes' errors, and what the
-- channel gives until the deadline in each of the two waits, are given.
unfoldable pub flood_dora :
    List ℕ
    → ℕ
    → Option (List ℕ)
    → List Packet
    → Option (List ℕ)
    → List Packet
    → List Packet × Result DoraError (Option Ip)
unfolding packet_or request_offered
flood_dora mac xid first_error offers second_error acks = elim first_error [
  | some text ↦ ([], err (send_discover text))
  | none ↦
      let disc = build_discover mac xid none [] in
      elim (packet_or no_offer (recv_from_chan xid msg_offer offers)) [
        | err e ↦ (disc ∷ [], err e)
        | ok offer ↦
            let (sent, r) = request_offered mac xid offer second_error acks in (disc ∷ sent, r)
      ]
]

-- "send DISCOVER: %w", "no OFFER: %w", "send REQUEST: %w", "no ACK: %w"
unfoldable pub error_text : DoraError → List ℕ
error_text (send_discover e) =
    b's' ∷ b'e' ∷ b'n' ∷ b'd' ∷ b' ' ∷ b'D' ∷ b'I' ∷ b'S' ∷ b'C' ∷ b'O' ∷ b'V' ∷ b'E' ∷ b'R' ∷ b':'
    ∷ b' ' ∷ e
error_text (no_offer e) = b'n' ∷ b'o' ∷ b' ' ∷ b'O' ∷ b'F' ∷ b'F' ∷ b'E' ∷ b'R' ∷ b':' ∷ b' ' ∷ e
error_text (send_request e) =
    b's' ∷ b'e' ∷ b'n' ∷ b'd' ∷ b' ' ∷ b'R' ∷ b'E' ∷ b'Q' ∷ b'U' ∷ b'E' ∷ b'S' ∷ b'T' ∷ b':' ∷ b' '
    ∷ e
error_text (no_ack e) = b'n' ∷ b'o' ∷ b' ' ∷ b'A' ∷ b'C' ∷ b'K' ∷ b':' ∷ b' ' ∷ e

abbrev pub text_fail : List ℕ
text_fail = b'F' ∷ b'A' ∷ b'I' ∷ b'L' ∷ []

-- "client[%02d] %s", of the index as the formatting has it.
unfoldable pub result_head : List ℕ → List ℕ → List ℕ
result_head index mac =
    b'c' ∷ b'l' ∷ b'i' ∷ b'e' ∷ b'n' ∷ b't' ∷ b'[' ∷ (index ++ b']' ∷ b' ' ∷ colon_hex mac)

-- The text that a client sends to the channel of the results; the arrow is three bytes.
unfoldable pub result_text : List ℕ → List ℕ → Result DoraError (Option Ip) → List ℕ
unfolding result_head
result_text index mac (ok ip) =
    result_head index mac ++ (b' ' ∷ 226 ∷ 134 ∷ 146 ∷ b' ' ∷ ip_text ip)
result_text index mac (err e) =
    result_head index mac ++ (b' ' ∷ (text_fail ++ (b':' ∷ b' ' ∷ error_text e)))

-- One client of runFlood, with its index as the formatting has it.
pub record FloodRun : Type 0 where
  pub index : List ℕ
  pub mac : List ℕ
  pub xid : ℕ
  pub first_error : Option (List ℕ)
  pub offers : List Packet
  pub second_error : Option (List ℕ)
  pub acks : List Packet

unfoldable pub flood_result : FloodRun → List ℕ
unfolding flood_dora result_text
flood_result run =
    result_text run.index run.mac
      (flood_dora run.mac run.xid run.first_error run.offers run.second_error run.acks).1

-- `len(r) > 4 && r[len(r)-4:] == "FAIL"`
unfoldable pub is_failure : List ℕ → Bool
is_failure r =
    if ltb 4 (length r) then ite (drop (length r - 4) r =? text_fail) true false else false

-- The loop over the results: how many succeeded and how many failed.
unfoldable pub count_results : List (List ℕ) → ℕ × ℕ
unfolding is_failure
count_results [] = (0, 0)
count_results (r ∷ results) =
    let (good, bad) = count_results results in
    if is_failure r then (good, bad + 1) else (good + 1, bad)

-- runFlood, with its clients in the order in which their results come.
unfoldable pub run_flood : List FloodRun → ℕ × ℕ
unfolding flood_result count_results
run_flood runs = count_results (map flood_result runs)
