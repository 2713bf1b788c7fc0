-- ===== src/Tftp/Buffer.antt =====
-- internal/ztp/tftp.go, ServeTFTP: the loop that reads every request into one buffer and hands a
-- slice of it to a goroutine. A goroutine reads its slice at one moment, when it
-- gets to run.
use mydhcp.Common.{
  ℕ, zero, suc, ◌≤◌, ◌≡◌, refl, ap, List, [], ◌∷◌, ◌++◌, Option, some, none, arith, length, take,
  drop, take_of_length-append,
}

-- A goroutine that has not run yet: its client and the length of its slice.
pub record Pending : Type 0 where
  pub client : ℕ
  pub size : ℕ

pub record Serving : Type 0 where
  pub buffer : List ℕ
  pub pending : List Pending

-- A read that succeeds or fails, or the goroutine at a place of those that wait runs.
pub data Event : Type 0 where
  receives : List ℕ → ℕ → Event
  fails : Event
  runs : ℕ → Event

-- What a read of these bytes leaves in the buffer.
unfoldable pub read_into : List ℕ → List ℕ → List ℕ
read_into buffer bytes = bytes ++ drop (length bytes) buffer

unfoldable pub take_out : ℕ → List Pending → Option Pending × List Pending
take_out n [] = (none, [])
take_out zero (g ∷ gs) = (some g, gs)
take_out (suc n) (g ∷ gs) = let (found, rest) = take_out n gs in (found, g ∷ rest)

-- The requests that are handled, each with the client that it is answered to.
unfoldable pub serve_tftp : Serving → List Event → List (ℕ × List ℕ)
unfolding read_into take_out
serve_tftp s [] = []
serve_tftp s (fails ∷ events) = serve_tftp s events
serve_tftp s (receives bytes client ∷ events) =
    serve_tftp
      (record {
        buffer = read_into s.buffer bytes;
        pending = s.pending ++ record { client = client; size = length bytes } ∷ [];
      })
      events
serve_tftp s (runs n ∷ events) =
    let out = take_out n s.pending in
    let later = serve_tftp (record s { pending = out.1 }) events in
    elim out.0 [ none ↦ later | some g ↦ (g.client, take g.size s.buffer) ∷ later ]

-- Each request, and at once the goroutine that it is handed to.
abbrev pub in_turn : List (ℕ × List ℕ) → List Event
in_turn [] = []
in_turn ((client, bytes) ∷ requests) = receives bytes client ∷ runs 0 ∷ in_turn requests

take-append : (n : ℕ) (xs ys : List ℕ) → n ≤ length xs → take n (xs ++ ys) ≡ take n xs
take-append zero xs ys h = refl
take-append (suc n) [] ys h = absurd (omega arith)
take-append (suc n) (x ∷ xs) ys h = ap (◌∷◌ x) (take-append n xs ys (omega arith))

-- Two requests of which the first does not run before the second comes.
abbrev pub overtaken : List ℕ → List ℕ → ℕ → ℕ → List Event
overtaken a b first second = receives a first ∷ receives b second ∷ runs 0 ∷ runs 0 ∷ []

overtaken_lem :
    (buffer a b : List ℕ) (first second : ℕ)
    → length a ≤ length b
    → serve_tftp (record { buffer = buffer; pending = [] }) (overtaken a b first second)
      ≡ (first, take (length a) b) ∷ (second, b) ∷ []
unfolding serve_tftp
overtaken_lem buffer a b first second shorter =
    let left = drop (length b) (read_into buffer a) in
    let theirs = take-append (length a) b left shorter in
    let own = take_of_length-append (length b) b left refl in
    λ i. (first, theirs i) ∷ (second, own i) ∷ []

-- The loop of ServeTFTP hands requests to its goroutines, each of which runs before the next read;
-- then a request comes that is not longer than the next one, and both are read before either
-- goroutine runs. Then the earlier requests are handled as they came, and the first of the two is
-- not: its client is served the head of the other's bytes.
pub serve_tftp-overtaken :
    (requests : List (ℕ × List ℕ)) (buffer a b : List ℕ) (first second : ℕ)
    → length a ≤ length b
    → serve_tftp
        (record { buffer = buffer; pending = [] })
        (in_turn requests ++ overtaken a b first second)
      ≡ requests ++ (first, take (length a) b) ∷ (second, b) ∷ []
unfolding serve_tftp
serve_tftp-overtaken [] buffer a b first second shorter =
    overtaken_lem buffer a b first second shorter
serve_tftp-overtaken ((client, bytes) ∷ requests) buffer a b first second shorter =
    let own = take_of_length-append (length bytes) bytes (drop (length bytes) buffer) refl in
    let later = serve_tftp-overtaken requests (read_into buffer bytes) a b first second shorter in
    λ i. (client, own i) ∷ later i
