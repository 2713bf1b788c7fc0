-- ===== src/Client/Flood/Counting.antt =====
-- The count of the flood's results.
use mydhcp.Common.{
  ℕ, zero, suc, ◌+◌, ◌-◌, ◌%◌, ◌<◌, ◌≡◌, ◌≢◌, refl, ap, ◌∙◌, sym, subst, List, [], ◌∷◌, ◌++◌,
  Option, some, none, false, arith, text_eq, length, drop, ltb, ◌=?◌, Bool-cases, inl, inr,
  Result-cases, ok, err,
}
use mydhcp.Net.{Ip}
use mydhcp.Text.{decimal, dotted}
use mydhcp.Dhcp.Options.{msg_offer, msg_ack}
use mydhcp.Dhcp.Packet.{Packet}
use mydhcp.Dhcp.Reply.{ip_text}
use mydhcp.Client.{Received, received, refused, timed_out, recv_from_chan}
use mydhcp.Client.Flood.{
  run_flood, DoraError, packet_or, text_got_nak, text_timeout, request_offered, FloodRun,
  flood_result, send_discover, no_offer, send_request, no_ack, text_fail, error_text, result_head,
  result_text, is_failure, count_results, flood_dora,
}

-- The last byte of a text.
abbrev pub last : List ℕ → Option ℕ
last [] = none
last (c ∷ []) = some c
last (c ∷ d ∷ text) = last (d ∷ text)

last-append : (xs : List ℕ) (y : ℕ) (ys : List ℕ) → last (xs ++ y ∷ ys) ≡ last (y ∷ ys)
last-append [] y ys = refl
last-append (x ∷ []) y ys = refl
last-append (x ∷ x' ∷ xs) y ys = last-append (x' ∷ xs) y ys

last-drop : (n : ℕ) (xs : List ℕ) → n < length xs → last (drop n xs) ≡ last xs
last-drop zero xs h = refl
last-drop (suc n) [] h = absurd (omega arith)
last-drop (suc n) (x ∷ []) h = absurd (omega arith)
last-drop (suc n) (x ∷ y ∷ xs) h = last-drop n (y ∷ xs) (omega arith)

-- A text that ends in another byte than L is no failure to the loop.
is_failure_last : (r : List ℕ) → last r ≢ some b'L' → is_failure r ≡ false
unfolding is_failure
is_failure_last r h = elim (Bool-cases (ltb 4 (length r))) [
  | inr short ↦ ground (arith, short)
  | inl long ↦ elim (drop (length r - 4) r =? text_fail) [
    | no e ↦ ground (arith, long, e)
    | yes e ↦ absurd (h (sym (last-drop (length r - 4) r (ground (arith, long))) ∙ ap last e))
  ]
]

last-decimal : (n : ℕ) → last (decimal n) ≡ some (n % 10 + 48)
unfolding decimal
last-decimal n = ground arith

-- A text that does not end in L.
abbrev pub EndsOther : List ℕ → Type 0
EndsOther r = last r ≢ some b'L'

EndsOther-cons : (c : ℕ) (r : List ℕ) → c ≢ b'L' → EndsOther r → EndsOther (c ∷ r)
EndsOther-cons c [] h k e = h (ground arith)
EndsOther-cons c (d ∷ r) h k e = k e

EndsOther-append :
    (xs : List ℕ) (y : ℕ) (ys : List ℕ) → EndsOther (y ∷ ys) → EndsOther (xs ++ y ∷ ys)
EndsOther-append xs y ys h e = h (sym (last-append xs y ys) ∙ e)

decimal-EndsOther : (n : ℕ) → EndsOther (decimal n)
decimal-EndsOther n e = ground (arith, last-decimal n, e)

dotted-EndsOther : (a : Ip) → EndsOther (dotted a)
unfolding dotted
dotted-EndsOther a =
    let third = decimal a.b2 ++ b'.' ∷ decimal a.b3 in
    let second = decimal a.b1 ++ b'.' ∷ third in
    let end = EndsOther-cons b'.' (decimal a.b3) (omega arith) (decimal-EndsOther a.b3) in
    EndsOther-append (decimal a.b0) b'.' second (
      EndsOther-cons b'.' second (omega arith) (
        EndsOther-append (decimal a.b1) b'.' third (
          EndsOther-cons b'.' third (omega arith)
            (EndsOther-append (decimal a.b2) b'.' (decimal a.b3) end))))

ip_text-EndsOther : (a : Option Ip) → EndsOther (ip_text a)
unfolding ip_text
ip_text-EndsOther none e = ground (arith, e)
ip_text-EndsOther (some a) e = dotted-EndsOther a e

error_text-EndsOther :
    (e : List ℕ)
    → EndsOther e
    → EndsOther (error_text (send_discover e))
      × EndsOther (error_text (no_offer e))
      × EndsOther (error_text (send_request e))
      × EndsOther (error_text (no_ack e))
unfolding error_text
error_text-EndsOther e h = let end = EndsOther-cons b' ' e (omega arith) h in (end, end, end, end)

-- The text of a write's error, if there is one, does not end in L.
abbrev pub ErrorEndsOther : Option (List ℕ) → Type 0
ErrorEndsOther none = Unit {0}
ErrorEndsOther (some e) = EndsOther e

result_text_failed :
    (index mac : List ℕ) (e : DoraError)
    → EndsOther (error_text e)
    → EndsOther (result_text index mac (err e))
unfolding result_text
result_text_failed index mac e h =
    EndsOther-append (result_head index mac) b' ' _
      (EndsOther-cons b' ' (error_text e) (omega arith) h)

result_text_done : (index mac : List ℕ) (ip : Option Ip) → EndsOther (result_text index mac (ok ip))
unfolding result_text
result_text_done index mac ip =
    EndsOther-append (result_head index mac) b' ' _
      (EndsOther-cons b' ' (ip_text ip) (omega arith) (ip_text-EndsOther ip))

wait-EndsOther :
    (r : Received) (e : List ℕ → DoraError) (x : DoraError)
    → ((t : List ℕ) → EndsOther t → EndsOther (error_text (e t)))
    → packet_or e r ≡ err x
    → EndsOther (error_text x)
unfolding packet_or
wait-EndsOther (received pkt) e x h k = absurd (ground arith)
wait-EndsOther refused e x h k =
    subst (λ y. EndsOther (error_text y)) (ground arith) (h text_got_nak (λ l. ground (arith, l)))
wait-EndsOther timed_out e x h k =
    subst (λ y. EndsOther (error_text y)) (ground arith) (h text_timeout (λ l. ground (arith, l)))

-- No error of dora ends in L.
request_offered-EndsOther :
    (mac : List ℕ) (xid : ℕ) (offer : Packet) (second_error : Option (List ℕ)) (acks : List Packet)
    (e : DoraError)
    → ErrorEndsOther second_error
    → (request_offered mac xid offer second_error acks).1 ≡ err e
    → EndsOther (error_text e)
unfolding request_offered
request_offered-EndsOther mac xid offer (some t) acks e h failed =
    subst (λ y. EndsOther (error_text y)) (ground arith) (error_text-EndsOther t h).2
request_offered-EndsOther mac xid offer none acks e h failed =
    elim (Result-cases (packet_or no_ack (recv_from_chan xid msg_ack acks))) [
      | inl (ack, got) ↦ absurd (ground (arith, got, failed))
      | inr (x, lost) ↦
          wait-EndsOther _ no_ack e (λ t k. (error_text-EndsOther t k).3)
            (lost ∙ ground (arith, lost, failed))
    ]

flood_dora-EndsOther :
    (mac : List ℕ) (xid : ℕ) (first_error : Option (List ℕ)) (offers : List Packet)
    (second_error : Option (List ℕ)) (acks : List Packet) (e : DoraError)
    → ErrorEndsOther first_error
    → ErrorEndsOther second_error
    → (flood_dora mac xid first_error offers second_error acks).1 ≡ err e
    → EndsOther (error_text e)
unfolding flood_dora
flood_dora-EndsOther mac xid (some t) offers second_error acks e h k failed =
    subst (λ y. EndsOther (error_text y)) (ground arith) (error_text-EndsOther t h).0
flood_dora-EndsOther mac xid none offers second_error acks e h k failed =
    elim (Result-cases (packet_or no_offer (recv_from_chan xid msg_offer offers))) [
      | inr (x, lost) ↦
          wait-EndsOther _ no_offer e (λ t l. (error_text-EndsOther t l).1)
            (lost ∙ ground (arith, lost, failed))
      | inl (offer, got) ↦
          request_offered-EndsOther mac xid offer second_error acks e k
            (ground (arith, got, failed))
    ]

flood_result-EndsOther :
    (run : FloodRun)
    → ErrorEndsOther run.first_error
    → ErrorEndsOther run.second_error
    → EndsOther (flood_result run)
unfolding flood_result
flood_result-EndsOther run h k =
    elim (Result-cases
      (flood_dora run.mac run.xid run.first_error run.offers run.second_error run.acks).1) [
        | inl (ip, e) ↦
            subst (λ r. EndsOther (result_text run.index run.mac r)) (sym e)
              (result_text_done run.index run.mac ip)
        | inr (x, e) ↦
            subst (λ r. EndsOther (result_text run.index run.mac r)) (sym e)
              (result_text_failed run.index run.mac x (
                flood_dora-EndsOther run.mac run.xid run.first_error run.offers run.second_error
                  run.acks x h k e))
      ]

-- The texts of the writes' errors do not end in L.
abbrev pub ErrorsEndOther : List FloodRun → Type 0
ErrorsEndOther [] = Unit {0}
ErrorsEndOther (run ∷ runs) =
    ErrorEndsOther run.first_error × ErrorEndsOther run.second_error × ErrorsEndOther runs

-- Let no error of a write have a text that ends in L. Then the flood counts every one of its
-- clients as a success, whether or not a client got an address.
pub run_flood_lem : (runs : List FloodRun) → ErrorsEndOther runs → run_flood runs ≡ (length runs, 0)
unfolding run_flood count_results
run_flood_lem [] h = refl
run_flood_lem (run ∷ runs) (h, k, more) = ground (
  arith,
  is_failure_last (flood_result run) (flood_result-EndsOther run h k),
  run_flood_lem runs more,
)
