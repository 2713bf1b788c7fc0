-- ===== src/Dashboard/Stream.antt =====
-- plugins/dashboard/dashboard.go, handleSSE: the loop that writes one client's stream, with the
-- events that broadcast puts into its channel meanwhile. The headers are left out.
use mathlib.Core.List.{Sublistᴰ, append_assoc}
use mathlib.Core.List.Sublistᴰ.{slnil, cons, cons-cons}
use mydhcp.Common.{
  ℕ, suc, ◌+◌, ◌≤◌, ◌≡◌, refl, subst, sym, ap, List, [], ◌∷◌, ◌++◌, arith, length, length-append,
  ltb, if◌then◌else◌, Bool, Bool-cases, inl, inr,
}
use mydhcp.Dashboard.{push}

-- An event is broadcast, the loop takes an event from the channel, its ticker ticks, or the client
-- is gone.
pub data Tick : Type 0 where
  emits : List ℕ → Tick
  takes beats gone : Tick

pub data Frame : Type 0 where
  event : List ℕ → Frame
  heartbeat : Frame

-- "data: %s\n\n" and ": heartbeat\n\n"
unfoldable pub frame_text : Frame → List ℕ
frame_text (event bytes) = b'd' ∷ b'a' ∷ b't' ∷ b'a' ∷ b':' ∷ b' ' ∷ (bytes ++ 10 ∷ 10 ∷ [])
frame_text heartbeat =
    b':' ∷ b' ' ∷ b'h' ∷ b'e' ∷ b'a' ∷ b'r' ∷ b't' ∷ b'b' ∷ b'e' ∷ b'a' ∷ b't' ∷ 10 ∷ 10 ∷ []

-- What the loop writes, and what is left in the channel; a loop that finds the channel empty waits.
unfoldable pub handle_sse : List (List ℕ) → List Tick → List Frame × List (List ℕ)
unfolding push
handle_sse queue [] = ([], queue)
handle_sse queue (emits bytes ∷ ticks) = handle_sse (push queue bytes) ticks
handle_sse [] (takes ∷ ticks) = handle_sse [] ticks
handle_sse (bytes ∷ queue) (takes ∷ ticks) =
    let (frames, left) = handle_sse queue ticks in (event bytes ∷ frames, left)
handle_sse queue (beats ∷ ticks) =
    let (frames, left) = handle_sse queue ticks in (heartbeat ∷ frames, left)
handle_sse queue (gone ∷ ticks) = ([], queue)

abbrev pub events_of : List Frame → List (List ℕ)
events_of [] = []
events_of (event bytes ∷ frames) = bytes ∷ events_of frames
events_of (heartbeat ∷ frames) = events_of frames

-- The events that are broadcast before the client is gone.
abbrev pub emitted : List Tick → List (List ℕ)
emitted [] = []
emitted (emits bytes ∷ ticks) = bytes ∷ emitted ticks
emitted (takes ∷ ticks) = emitted ticks
emitted (beats ∷ ticks) = emitted ticks
emitted (gone ∷ ticks) = []

-- How many of them come while 32 wait.
unfoldable pub dropped : List (List ℕ) → List Tick → ℕ
unfolding push
dropped queue [] = 0
dropped queue (emits bytes ∷ ticks) =
    let more = dropped (push queue bytes) ticks in if ltb (length queue) 32 then more else suc more
dropped [] (takes ∷ ticks) = dropped [] ticks
dropped (bytes ∷ queue) (takes ∷ ticks) = dropped queue ticks
dropped queue (beats ∷ ticks) = dropped queue ticks
dropped queue (gone ∷ ticks) = 0

sublist_self : (xs ys : List (List ℕ)) → Sublistᴰ xs (xs ++ ys)
sublist_self [] [] = slnil
sublist_self [] (y ∷ ys) = cons (sublist_self [] ys)
sublist_self (x ∷ xs) ys = cons-cons refl (sublist_self xs ys)

sublist_insert :
    (xs q : List (List ℕ)) (b : List ℕ) (ys : List (List ℕ))
    → Sublistᴰ xs (q ++ ys)
    → Sublistᴰ xs (q ++ b ∷ ys)
sublist_insert xs [] b ys h = cons h
sublist_insert xs (x ∷ q) b ys (cons h) = cons (sublist_insert xs q b ys h)
sublist_insert (y ∷ xs) (x ∷ q) b ys (cons-cons e h) = cons-cons e (sublist_insert xs q b ys h)

-- Of all events the ones that the client got and those that wait come in order and none twice, only
-- the lost ones are missing, and at most 32 wait.
pub record IsStreamed (all : List (List ℕ)) (out : List Frame × List (List ℕ)) (lost : ℕ)
    : Type 0 where
  pub in_order : Sublistᴰ (events_of out.0 ++ out.1) all
  pub counted : length (events_of out.0 ++ out.1) + lost ≡ length all
  pub waiting : length out.1 ≤ 32

same_stream :
    {all all' : List (List ℕ)} {out out' : List Frame × List (List ℕ)} {lost lost' : ℕ}
    → all ≡ all'
    → out ≡ out'
    → lost ≡ lost'
    → IsStreamed all out lost
    → IsStreamed all' out' lost'
same_stream {all} {all'} {out} {out'} {lost} {lost'} p q r h =
    subst (λ x. IsStreamed all' out' x) r
      (subst (λ x. IsStreamed all' x lost) q (subst (λ x. IsStreamed x out lost) p h))

-- The client is gone, or nothing more happens.
unread-IsStreamed :
    (queue : List (List ℕ)) → length queue ≤ 32 → IsStreamed (queue ++ []) ([], queue) 0
unread-IsStreamed queue room = record {
  in_order = sublist_self queue [];
  counted = omega (arith, length-append queue []);
  waiting = room;
}

lost-IsStreamed :
    (queue : List (List ℕ)) (bytes : List ℕ) (later : List (List ℕ))
    (out : List Frame × List (List ℕ)) (lost : ℕ)
    → IsStreamed (queue ++ later) out lost
    → IsStreamed (queue ++ bytes ∷ later) out (suc lost)
lost-IsStreamed queue bytes later out lost h = record {
  in_order = sublist_insert (events_of out.0 ++ out.1) queue bytes later h.in_order;
  counted =
      omega (arith, length-append queue (bytes ∷ later), length-append queue later, h.counted);
  waiting = h.waiting;
}

-- Let a dashboard client's channel hold at most 32 events. Then, whatever is broadcast and
-- whenever the loop takes an event, ticks or ends, what the client is written and what waits are
-- those events and the ones broadcast, in order and none twice; as many are missing as came while
-- 32 waited; and at most 32 wait at the end.
pub handle_sse-IsStreamed :
    (queue : List (List ℕ)) (ticks : List Tick)
    → length queue ≤ 32
    → IsStreamed (queue ++ emitted ticks) (handle_sse queue ticks) (dropped queue ticks)
unfolding handle_sse dropped push
handle_sse-IsStreamed queue [] room = unread-IsStreamed queue room
handle_sse-IsStreamed queue (gone ∷ ticks) room = unread-IsStreamed queue room
handle_sse-IsStreamed [] (takes ∷ ticks) room = handle_sse-IsStreamed [] ticks room
handle_sse-IsStreamed (bytes ∷ queue) (takes ∷ ticks) room =
    let h = handle_sse-IsStreamed queue ticks (omega (arith, room)) in
    record {
      in_order = cons-cons refl h.in_order;
      counted = omega (arith, h.counted);
      waiting = h.waiting;
    }
handle_sse-IsStreamed queue (beats ∷ ticks) room =
    let h = handle_sse-IsStreamed queue ticks room in
    record { in_order = h.in_order; counted = h.counted; waiting = h.waiting }
handle_sse-IsStreamed queue (emits bytes ∷ ticks) room =
    let choice : Bool → List (List ℕ) = λ t. if t then queue ++ bytes ∷ [] else queue in
    elim (Bool-cases (ltb (length queue) 32)) [
      | inl free ↦
          same_stream (append_assoc queue (bytes ∷ []) (emitted ticks))
            (ap (λ t. handle_sse (choice t) ticks) (sym free))
            (ap (λ t. let more = dropped (choice t) ticks in if t then more else suc more)
              (sym free))
            (handle_sse-IsStreamed (queue ++ bytes ∷ []) ticks
              (ground (arith, free, length-append queue (bytes ∷ []))))
      | inr full ↦
          same_stream refl (ap (λ t. handle_sse (choice t) ticks) (sym full))
            (ap (λ t. let more = dropped (choice t) ticks in if t then more else suc more)
              (sym full))
            (lost-IsStreamed queue bytes (emitted ticks) (handle_sse queue ticks)
              (dropped queue ticks) (handle_sse-IsStreamed queue ticks room))
    ]
