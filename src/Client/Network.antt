-- ===== src/Client/Network.antt =====
-- The client's socket with the server of this repository at the other end: what the client writes
-- is served at once, and the answer arrives behind whatever else arrives.
use mydhcp.Common.{
  ℕ, ◌+◌, ◌≡◌, ◌≢◌, refl, ap, ◌∙◌, List, [], ◌∷◌, ◌++◌, Option, some, none, Bool, true, arith, ok,
  ite, if_pos, ◌=?◌, ◌==◌, if◌then◌else◌, Result-cases, inl, inr,
}
use mydhcp.Net.{Ip, ip_eq}
use mydhcp.Subnet.{Manager}
use mydhcp.Ztp.Defs.{Ztp}
use mydhcp.Dhcp.Packet.{Packet, parse, serialize}
use mydhcp.Dhcp.Server.{Datagram, Served, handle_packet, broadcast_ip}
use mydhcp.Client.{recv, unread}
use mydhcp.Client.World.{World, Client, send, await}
use mydhcp.Client.Wire.{to_client}

-- The server's subnets, the datagrams that wait at the client's socket, and how many the client has
-- written.
pub record Net : Type 0 where
  pub subnets : Manager
  pub inbox : List (List ℕ)
  pub count : ℕ

-- The client's socket is bound to port 68 and receives what is broadcast there.
abbrev pub delivered : Option Datagram → List (List ℕ)
delivered none = []
delivered (some d) =
    ite (d.address =? broadcast_ip) (if d.port == 68 then d.payload ∷ [] else []) []

-- The server gets the client's n-th datagram at `time n`, and `others n` arrives before its answer.
module _ (server_ip : Ip) (z : Option Ztp) (time : ℕ → ℕ) (others : ℕ → List (List ℕ))
    (rand : ℕ → ℕ) where
  abbrev pub serve : Net → List ℕ → Served
  serve s bytes = handle_packet (some server_ip) z s.subnets bytes (time s.count)

  -- The network behind the datagram for the server.
  abbrev pub arrive : Net → List ℕ → Net
  arrive s bytes = record {
    subnets = (serve s bytes).subnets;
    inbox = s.inbox ++ (others s.count ++ delivered (serve s bytes).sent);
    count = s.count + 1;
  }

  abbrev pub write_to : Net → Datagram → Net × Bool
  write_to s d =
      (ite (d.address =? server_ip) (if d.port == 67 then arrive s d.payload else s) s, true)

  abbrev pub network : World
  network = record {
    State = Net;
    write = write_to;
    arrived = λ s. s.inbox;
    leave = λ s rest. record s { inbox = rest };
    random = λ s. (s, rand s.count);
  }

  -- A client that sends to the server's address reaches it.
  pub send_lem :
      (c : Client) (kind : ℕ) (p : Packet) (s : Net)
      → c.server_addr ≡ server_ip
      → send network c kind p s ≡ (arrive s (serialize p), ok tt)
  unfolding send
  send_lem c kind p s here = rw (if_pos (c.server_addr =? server_ip) here)

-- Datagrams of which none is a reply with the transaction id.
abbrev pub AreStrange : ℕ → List (List ℕ) → Type 0
AreStrange xid [] = Unit {0}
AreStrange xid (bytes ∷ rest) =
    ((pkt : Packet) → parse bytes ≡ ok pkt → pkt.op ≡ 2 → pkt.xid ≢ xid) × AreStrange xid rest

recv_strange : (xid : ℕ) (xs : List (List ℕ)) → AreStrange xid xs → recv xid xs ≡ none
unfolding recv
recv_strange xid [] h = refl
recv_strange xid (bytes ∷ xs) (strange, more) = elim (Result-cases (parse bytes)) [
  | inr (x, e) ↦ ground (arith, e, recv_strange xid xs more)
  | inl (pkt, e) ↦ ground (arith, e, strange pkt e, recv_strange xid xs more)
]

recv-append :
    (xid : ℕ) (xs ys : List (List ℕ))
    → recv xid xs ≡ none
    → (recv xid (xs ++ ys) ≡ recv xid ys) × (unread xid (xs ++ ys) ≡ unread xid ys)
unfolding recv unread
recv-append xid [] ys h = (refl, refl)
recv-append xid (bytes ∷ xs) ys h = elim (Result-cases (parse bytes)) [
  | inr (x, e) ↦ ground (arith, e, h, recv-append xid xs ys)
  | inl (pkt, e) ↦ ground (arith, e, h, recv-append xid xs ys)
]

recv_reply :
    (xid : ℕ) (bytes : List ℕ) (pkt : Packet)
    → parse bytes ≡ ok pkt
    → (pkt.op ≡ 2) × (pkt.xid ≡ xid)
    → (recv xid (bytes ∷ []) ≡ some pkt) × (unread xid (bytes ∷ []) ≡ [])
unfolding recv unread
recv_reply xid bytes pkt read (reply, mine) = ground (arith, read, reply, mine)

delivered-to_client : (p : Packet) → delivered (some (to_client p)) ≡ serialize p ∷ []
delivered-to_client p = if_pos (broadcast_ip =? broadcast_ip) refl _ _

module _ (server_ip : Ip) (z : Option Ztp) (time : ℕ → ℕ) (others : ℕ → List (List ℕ))
    (rand : ℕ → ℕ) where
  -- The network behind a datagram whose answer is read.
  abbrev pub answered : Net → List ℕ → Net
  answered s bytes = record (arrive server_ip z time others rand s bytes) { inbox = [] }

  arrived_lem :
      (s : Net) (bytes : List ℕ) (reply : Packet)
      → s.inbox ≡ []
      → (serve server_ip z time others rand s bytes).sent ≡ some (to_client reply)
      → (arrive server_ip z time others rand s bytes).inbox ≡ others s.count ++ serialize reply ∷ []
  arrived_lem s bytes reply idle sent =
      ap (λ i. i ++ (others s.count ++ delivered (serve server_ip z time others rand s bytes).sent))
        idle
      ∙ ap (λ o. others s.count ++ delivered o) sent
      ∙ ap (◌++◌ (others s.count)) (delivered-to_client reply)

  -- recv takes the server's answer, whatever else arrives that it does not take.
  pub await_answer :
      (s : Net) (bytes : List ℕ) (reply r : Packet) (xid : ℕ)
      → s.inbox ≡ []
      → AreStrange xid (others s.count)
      → (serve server_ip z time others rand s bytes).sent ≡ some (to_client reply)
      → parse (serialize reply) ≡ ok r
      → (r.op ≡ 2) × (r.xid ≡ xid)
      → await
          (network server_ip z time others rand)
          xid
          (arrive server_ip z time others rand s bytes)
        ≡ (answered s bytes, ok (some r))
  unfolding await
  await_answer s bytes reply r xid idle strange sent read passes =
      let (skip, skip') =
        recv-append xid (others s.count) (serialize reply ∷ [])
          (recv_strange xid (others s.count) strange) in
      let (got, left) = recv_reply xid (serialize reply) r read passes in
      rw (arrived_lem s bytes reply idle sent, skip, skip', got, left) refl
