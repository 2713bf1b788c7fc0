-- ===== src/Relay/Traffic.antt =====
-- internal/relay/relay.go: what the goroutines of an interface write and send.
use mydhcp.Common.{
  ℕ, subst, sym, zero, suc, ◌+◌, ◌%◌, ◌<◌, ◌∙◌, take, drop, length-append, length-take, length-drop,
  ◌≤◌, ◌≡◌, refl, List, [], ◌∷◌, ◌++◌, Option, some, none, arith, length, Option-cases, inl, inr,
  Bool, true, false, Bool-cases, ltb, ◌==◌,
}
use mydhcp.Net.{Ip}
use mydhcp.Dhcp.Packet.{at}
use mydhcp.Dhcp.Server.{Datagram}
use mydhcp.Relay.{set_giaddr, count_hop, overwrite, is_zero, forward_to_server, accept_reply}
use mydhcp.Relay.Loop.{
  Interface, Upstream, dial_fails, write_fails, no_reply, replies, Relayed, forward_to_client,
  relay_packet, Read, receives, fails, stopped, run_interface,
}

-- Only requests go to the server, and only replies to clients, at port 68.
abbrev pub AreRequests : List (List ℕ) → Type 0
AreRequests [] = Unit {0}
AreRequests (pkt ∷ pkts) = (236 ≤ length pkt) × (at pkt 0 ≡ 1) × AreRequests pkts

abbrev pub AreAnswers : List Datagram → Type 0
AreAnswers [] = Unit {0}
AreAnswers (d ∷ ds) =
    (236 ≤ length d.payload) × (at d.payload 0 ≡ 2) × (d.port ≡ 68) × AreAnswers ds

length-overwrite :
    (i : ℕ) (src pkt : List ℕ)
    → i + length src ≤ length pkt
    → length (overwrite i src pkt) ≡ length pkt
unfolding overwrite
length-overwrite i src pkt h = omega (
  arith,
  length-append (take i pkt) (src ++ drop (i + length src) pkt),
  length-append src (drop (i + length src) pkt),
  length-take i pkt,
  length-drop (i + length src) pkt,
)

at-overwrite :
    (i : ℕ) (src pkt : List ℕ) → 0 < i → 0 < length pkt → at (overwrite i src pkt) 0 ≡ at pkt 0
unfolding overwrite at
at-overwrite zero src pkt h k = absurd (omega arith)
at-overwrite (suc i) src [] h k = absurd (omega arith)
at-overwrite (suc i) src (x ∷ pkt) h k = refl

set_giaddr_keeps :
    (agent : Option Ip) (pkt : List ℕ)
    → 236 ≤ length pkt
    → (length (set_giaddr agent pkt) ≡ length pkt) × (at (set_giaddr agent pkt) 0 ≡ at pkt 0)
unfolding set_giaddr
set_giaddr_keeps none pkt h = (refl, refl)
set_giaddr_keeps (some a) pkt h =
    let src = a.b0 ∷ a.b1 ∷ a.b2 ∷ a.b3 ∷ [] in
    let long = length-overwrite 24 src pkt (omega arith) in
    let first = at-overwrite 24 src pkt (omega arith) (omega arith) in
    elim (Bool-cases (is_zero (take 4 (drop 24 pkt)))) [
      | inl e ↦ rw e (long, first)
      | inr e ↦ rw e (refl, refl)
    ]

count_hop_keeps :
    (pkt : List ℕ)
    → 236 ≤ length pkt
    → (length (count_hop pkt) ≡ length pkt) × (at (count_hop pkt) 0 ≡ at pkt 0)
unfolding count_hop
count_hop_keeps pkt h = (
  length-overwrite 3 ((at pkt 3 + 1) % 256 ∷ []) pkt (omega arith),
  at-overwrite 3 ((at pkt 3 + 1) % 256 ∷ []) pkt (omega arith) (omega arith),
)

-- What goes to the server is a request of the same length.
forwarded_request :
    (agent : Option Ip) (pkt out : List ℕ)
    → forward_to_server agent pkt ≡ some out
    → (length out ≡ length pkt) × (236 ≤ length out) × (at out 0 ≡ 1)
unfolding forward_to_server
forwarded_request agent pkt out h = elim (Bool-cases (ltb (length pkt) 236)) [
  | inl short ↦ absurd (ground (arith, short, h))
  | inr long ↦ elim (Bool-cases (at pkt 0 == 1)) [
    | inr other ↦ absurd (ground (arith, long, other, h))
    | inl request ↦
        let enough : 236 ≤ length pkt = ground (arith, long) in
        let (l, f) = set_giaddr_keeps agent pkt enough in
        let (l', f') = count_hop_keeps (set_giaddr agent pkt) (omega (arith, l)) in
        let same : out ≡ count_hop (set_giaddr agent pkt) = ground (arith, long, request, h) in
        rw same (omega (arith, l, l'), omega (arith, l, l'), f' ∙ f ∙ ground (arith, request))
  ]
]

sent_request :
    (agent : Option Ip) (pkt out : List ℕ)
    → forward_to_server agent pkt ≡ some out
    → (236 ≤ length out) × (at out 0 ≡ 1)
sent_request agent pkt out h =
    let (same, long, request) = forwarded_request agent pkt out h in (long, request)

accepted_reply :
    (bytes reply : List ℕ)
    → accept_reply bytes ≡ some reply
    → (236 ≤ length reply) × (at reply 0 ≡ 2)
unfolding accept_reply
accepted_reply bytes reply h = elim (Bool-cases (ltb (length bytes) 236)) [
  | inl short ↦ absurd (ground (arith, short, h))
  | inr long ↦ elim (Bool-cases (at bytes 0 == 2)) [
    | inr other ↦ absurd (ground (arith, long, other, h))
    | inl answer ↦
        let same : reply ≡ bytes = ground (arith, long, answer, h) in
        rw same (ground (arith, long), ground (arith, answer))
  ]
]

-- What one datagram can cause: a request to the server at most, and an answer to the client only
-- behind that.
pub record IsRelayed (r : Relayed) : Type 0 where
  pub requests : AreRequests r.to_server
  pub answers : AreAnswers r.to_client
  pub once : length r.to_server ≤ 1
  pub behind : length r.to_client ≤ length r.to_server

abbrev pub AllRelayed : List Relayed → Type 0
AllRelayed [] = Unit {0}
AllRelayed (r ∷ rs) = IsRelayed r × AllRelayed rs

quiet-IsRelayed : IsRelayed (record { to_server = []; to_client = [] })
quiet-IsRelayed = record { requests = tt; answers = tt; once = omega arith; behind = omega arith }

sent-IsRelayed :
    (out : List ℕ)
    → (236 ≤ length out) × (at out 0 ≡ 1)
    → IsRelayed (record { to_server = out ∷ []; to_client = [] })
sent-IsRelayed out (long, request) = record {
  requests = (long, request, tt);
  answers = tt;
  once = omega arith;
  behind = omega arith;
}

answered-IsRelayed :
    (out reply : List ℕ) (sends : Bool)
    → (236 ≤ length out) × (at out 0 ≡ 1)
    → (236 ≤ length reply) × (at reply 0 ≡ 2)
    → IsRelayed (record { to_server = out ∷ []; to_client = forward_to_client sends reply })
unfolding forward_to_client
answered-IsRelayed out reply false request answer = sent-IsRelayed out request
answered-IsRelayed out reply true (long, request) (long', answer) = record {
  requests = (long, request, tt);
  answers = (long', answer, refl, tt);
  once = omega arith;
  behind = omega arith;
}

same_as : (r s : Relayed) → IsRelayed r → s ≡ r → IsRelayed s
same_as r s h same = subst IsRelayed (sym same) h

module _ (i : Interface) (pkt out : List ℕ)
    (forwards : forward_to_server i.agent_ip pkt ≡ some out) where
  forwarded-IsRelayed : (up : Upstream) → IsRelayed (relay_packet i pkt up)
  unfolding relay_packet
  forwarded-IsRelayed dial_fails = same_as _ _ quiet-IsRelayed (ground (arith, forwards))
  forwarded-IsRelayed write_fails = same_as _ _ quiet-IsRelayed (ground (arith, forwards))
  forwarded-IsRelayed no_reply =
      same_as _ _ (sent-IsRelayed out (sent_request i.agent_ip pkt out forwards))
        (ground (arith, forwards))
  forwarded-IsRelayed (replies bytes sends) =
      let (same, long, request) = forwarded_request i.agent_ip pkt out forwards in
      elim (Option-cases (accept_reply bytes)) [
        | inl e ↦ same_as _ _ (sent-IsRelayed out (long, request)) (ground (arith, forwards, e))
        | inr (reply, e) ↦
            same_as _ _
              (answered-IsRelayed out reply sends (long, request) (accepted_reply bytes reply e))
              (ground (arith, forwards, e))
      ]

relay_packet-IsRelayed :
    (i : Interface) (pkt : List ℕ) (up : Upstream) → IsRelayed (relay_packet i pkt up)
relay_packet-IsRelayed i pkt up = elim (Option-cases (forward_to_server i.agent_ip pkt)) [
  | inl e ↦ same_as _ _ quiet-IsRelayed (unfold relay_packet in ground (arith, e))
  | inr (out, e) ↦ forwarded-IsRelayed i pkt out e up
]

-- Whatever an interface of the relay reads and whatever becomes of the connections, each of its
-- goroutines writes at most one packet to the server, a request of 236 bytes at least, and sends a
-- client at most one packet, a reply of 236 bytes at least to port 68, and that only if it wrote
-- to the server.
pub run_interface-AllRelayed :
    (i : Interface) (reads : List Read) → AllRelayed (run_interface i reads)
unfolding run_interface
run_interface-AllRelayed i [] = tt
run_interface-AllRelayed i (stopped ∷ reads) = tt
run_interface-AllRelayed i (fails ∷ reads) = run_interface-AllRelayed i reads
run_interface-AllRelayed i (receives pkt up ∷ reads) =
    (relay_packet-IsRelayed i pkt up, run_interface-AllRelayed i reads)
