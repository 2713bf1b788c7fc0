-- ===== src/Client/Flood/Channels.antt =====
-- The dispatcher's channels: what waits in them.
use mydhcp.Common.{
  ℕ, ◌≤◌, ◌≡◌, refl, List, [], ◌∷◌, ◌++◌, some, arith, nat_eq, length, length-append, ltb,
  Result-cases, Option-cases, Bool-cases, inl, inr, ok, not, ◌==◌, ◌=?◌, subst, sym,
}
use mydhcp.Common.Maps.{lookup, insert, lookup-insert, lookup-delete}
use mydhcp.Dhcp.Packet.{Packet, parse}
use mydhcp.Client.{Waiters, subscribe, unsubscribe, push, route}
use mydhcp.Client.Flood.{
  Event, subscribes, unsubscribes, takes, arrives, take_head, happen, happens,
}

-- Replies with the transaction id.
abbrev pub AreReplies : ℕ → List Packet → Type 0
AreReplies xid [] = Unit {0}
AreReplies xid (p ∷ queue) = (p.op ≡ 2) × (p.xid ≡ xid) × AreReplies xid queue

-- Four packets at most wait in a channel, all replies with its transaction id.
pub record IsQueue (xid : ℕ) (queue : List Packet) : Type 0 where
  pub few : length queue ≤ 4
  pub replies : AreReplies xid queue

abbrev pub IsBounded : Waiters → Type 0
IsBounded w = (xid : ℕ) (queue : List Packet) → lookup xid w ≡ some queue → IsQueue xid queue

AreReplies-append :
    (xid : ℕ) (queue : List Packet) (p : Packet)
    → AreReplies xid queue
    → p.op ≡ 2
    → p.xid ≡ xid
    → AreReplies xid (queue ++ p ∷ [])
AreReplies-append xid [] p h reply mine = (reply, mine, tt)
AreReplies-append xid (q ∷ queue) p h reply mine =
    (h.0, h.1, AreReplies-append xid queue p h.2 reply mine)

push-IsQueue :
    (xid : ℕ) (queue : List Packet) (p : Packet)
    → IsQueue xid queue
    → p.op ≡ 2
    → p.xid ≡ xid
    → IsQueue xid (push queue p)
unfolding push
push-IsQueue xid queue p h reply mine = elim (Bool-cases (ltb (length queue) 4)) [
  | inl room ↦ rw room (record {
    few = ground (arith, room, length-append queue (p ∷ []));
    replies = AreReplies-append xid queue p h.replies reply mine;
  })
  | inr full ↦ rw full h
]

take_head-IsQueue :
    (xid : ℕ) (queue : List Packet) → IsQueue xid queue → IsQueue xid (take_head queue)
unfolding take_head
take_head-IsQueue xid [] h = h
take_head-IsQueue xid (p ∷ queue) h = record { few = omega (arith, h.few); replies = h.replies.2 }

-- A channel's new content is the only one that changes.
insert-IsBounded :
    (xid : ℕ) (queue : List Packet) (w : Waiters)
    → IsBounded w
    → IsQueue xid queue
    → IsBounded (insert xid queue w)
insert-IsBounded xid queue w b h k q found = elim (xid =? k) [
  | yes e ↦
      subst (λ j. IsQueue j q) e
        (subst (IsQueue xid) (ground (arith, found, lookup-insert xid k queue w)) h)
  | no e ↦ b k q (ground (arith, found, lookup-insert xid k queue w))
]

unsubscribe-IsBounded : (xid : ℕ) (w : Waiters) → IsBounded w → IsBounded (unsubscribe xid w)
unfolding unsubscribe
unsubscribe-IsBounded xid w b k q found = elim (xid =? k) [
  | yes e ↦ absurd (ground (arith, found, lookup-delete xid k w))
  | no e ↦ b k q (ground (arith, found, lookup-delete xid k w))
]

moved : (w v : Waiters) → IsBounded w → v ≡ w → IsBounded v
moved w v b same = subst (λ u. IsBounded u) (sym same) b

route_reply :
    (w : Waiters) (bytes : List ℕ) (pkt : Packet)
    → parse bytes ≡ ok pkt
    → IsBounded w
    → IsBounded (route w bytes)
unfolding route
route_reply w bytes pkt read b = elim (Bool-cases (not (pkt.op == 2))) [
  | inl other ↦ moved w (route w bytes) b (ground (arith, read, other))
  | inr reply ↦ elim (Option-cases (lookup pkt.xid w)) [
    | inl e ↦ moved w (route w bytes) b (ground (arith, read, reply, e))
    | inr (queue, e) ↦
        moved (insert pkt.xid (push queue pkt) w) (route w bytes)
          (insert-IsBounded pkt.xid (push queue pkt) w b
            (push-IsQueue pkt.xid queue pkt (b pkt.xid queue e) (ground (arith, reply)) refl))
          (ground (arith, read, reply, e))
  ]
]

route-IsBounded : (w : Waiters) (bytes : List ℕ) → IsBounded w → IsBounded (route w bytes)
route-IsBounded w bytes b = elim (Result-cases (parse bytes)) [
  | inl (pkt, read) ↦ route_reply w bytes pkt read b
  | inr (x, unread) ↦ moved w (route w bytes) b (unfold route in ground (arith, unread))
]

takes-IsBounded : (w : Waiters) (xid : ℕ) → IsBounded w → IsBounded (happen w (takes xid))
unfolding happen
takes-IsBounded w xid b = elim (Option-cases (lookup xid w)) [
  | inl e ↦ moved w (happen w (takes xid)) b (ground (arith, e))
  | inr (queue, e) ↦
      moved (insert xid (take_head queue) w) (happen w (takes xid))
        (insert-IsBounded xid (take_head queue) w b (take_head-IsQueue xid queue (b xid queue e)))
        (ground (arith, e))
]

happen-IsBounded : (w : Waiters) (e : Event) → IsBounded w → IsBounded (happen w e)
happen-IsBounded w (subscribes xid) b =
    unfold happen subscribe in
    insert-IsBounded xid [] w b (record { few = omega arith; replies = tt })
happen-IsBounded w (unsubscribes xid) b = unfold happen in unsubscribe-IsBounded xid w b
happen-IsBounded w (arrives bytes) b = unfold happen in route-IsBounded w bytes b
happen-IsBounded w (takes xid) b = takes-IsBounded w xid b

happens-IsBounded : (w : Waiters) (events : List Event) → IsBounded w → IsBounded (happens w events)
unfolding happens
happens-IsBounded w [] b = b
happens-IsBounded w (e ∷ events) b = happens-IsBounded (happen w e) events (happen-IsBounded w e b)

-- Whatever clients of the flood start and end, whatever arrives and whatever they take, the
-- channel of a transaction id holds at most four packets, and each is a reply with that
-- transaction id.
pub channels-IsQueue :
    (events : List Event) (xid : ℕ) (queue : List Packet)
    → lookup xid (happens [] events) ≡ some queue
    → IsQueue xid queue
channels-IsQueue events =
    happens-IsBounded [] events (λ xid queue h. absurd (unfold lookup in ground arith))
