-- ===== src/Tftp/Transfer.antt =====
-- A transfer against a receiver that follows RFC 1350.
use mydhcp.Common.{
  ℕ, zero, suc, ◌+◌, ◌*◌, ◌/◌, ◌%◌, ◌≤◌, ◌<◌, ◌≡◌, refl, sym, ap, ◌∙◌, List, [], ◌∷◌, ◌++◌, Option,
  some, none, true, false, ltb, ◌==◌, ◌&&◌, if◌then◌else◌, length, take, drop, arith, Bool-cases,
  inl, inr,
}
use mydhcp.Dhcp.Packet.{at, uint16_at, put_uint16}
use mydhcp.Tftp.{
  Turn, write_fails, read_fails, answers, Ending, completed, data_packet, ack_buffer, stream_from,
  stream_data,
}

-- The receiver: it takes the blocks in order, counting modulo 2 ^ 16, and has the file when a
-- block of less than 512 bytes comes, which is the last.
unfoldable pub receive : ℕ → List (List ℕ) → Option (List ℕ)
unfolding uint16_at
receive block [] = none
receive block (pkt ∷ pkts) =
    let later = receive ((block + 1) % 65536) pkts in
    let body = drop 4 pkt in
    if uint16_at pkt 0 == 3 && uint16_at pkt 2 == block
    then if ltb (length body) 512
      then elim pkts [ [] ↦ some body | p ∷ ps ↦ none ]
      else elim later [ none ↦ none | some more ↦ some (body ++ more) ]
    else none

take-append-drop {ℓ} : {A : Type ℓ} (n : ℕ) (xs : List A) → take n xs ++ drop n xs ≡ xs
take-append-drop zero xs = refl
take-append-drop (suc n) [] = refl
take-append-drop (suc n) (x ∷ xs) = ap (◌∷◌ x) (take-append-drop n xs)

take_short {ℓ} : {A : Type ℓ} (n : ℕ) (xs : List A) → length (take n xs) < n → take n xs ≡ xs
take_short zero xs h = absurd (omega arith)
take_short (suc n) [] h = refl
take_short (suc n) (x ∷ xs) h = ap (◌∷◌ x) (take_short n xs (omega arith))

pub ltb-lt : (m n : ℕ) → ltb m n ≡ true → m < n
ltb-lt m n h = ground arith

pub ltb-le : (m n : ℕ) → ltb m n ≡ false → n ≤ m
ltb-le m n h = ground arith

pub block_read : (block : ℕ) → block < 65536 → block / 256 % 256 * 256 + block % 256 ≡ block
block_read block h = omega arith

-- How the receiver takes a data packet.
receive_data :
    (block : ℕ) (chunk : List ℕ) (pkts : List (List ℕ))
    → block < 65536
    → receive block (data_packet block chunk ∷ pkts) ≡ (
        if ltb (length chunk) 512
        then elim pkts [ [] ↦ some chunk | p ∷ ps ↦ none ]
        else elim (receive ((block + 1) % 65536) pkts) [
          | none ↦ none
          | some more ↦ some (chunk ++ more)
        ])
unfolding receive data_packet uint16_at at put_uint16
receive_data block chunk pkts small = let same = block_read block small in ground (arith, same)

-- What a turn that the client acknowledges writes.
pub stream_turn :
    (block : ℕ) (rest bytes : List ℕ) (turns : List Turn)
    → uint16_at (ack_buffer bytes) 0 ≡ 4
    → uint16_at (ack_buffer bytes) 2 ≡ block
    → stream_from block rest (answers bytes ∷ turns) ≡ (
        let pkt = data_packet block (take 512 rest) in
        let later = stream_from ((block + 1) % 65536) (drop 512 rest) turns in
        if ltb (length (take 512 rest)) 512
        then (pkt ∷ [], completed)
        else (pkt ∷ later.0, later.1))
unfolding stream_from
stream_turn block rest bytes turns h k = ground (arith, h, k)

-- A transfer goes on after a turn, or has ended by completing, only if the client acknowledged.
acknowledged :
    (block : ℕ) (rest bytes : List ℕ) (turns : List Turn)
    → (stream_from block rest (answers bytes ∷ turns)).1 ≡ completed
    → (uint16_at (ack_buffer bytes) 0 ≡ 4) × (uint16_at (ack_buffer bytes) 2 ≡ block)
unfolding stream_from
acknowledged block rest bytes turns h = (ground arith, ground arith)

stream_from-receive :
    (turns : List Turn) (block : ℕ) (rest : List ℕ)
    → block < 65536
    → (stream_from block rest turns).1 ≡ completed
    → receive block (stream_from block rest turns).0 ≡ some rest
stream_from-receive [] block rest small h = unfold stream_from in absurd (ground arith)
stream_from-receive (write_fails ∷ turns) block rest small h =
    unfold stream_from in absurd (ground arith)
stream_from-receive (read_fails ∷ turns) block rest small h =
    unfold stream_from in absurd (ground arith)
stream_from-receive (answers bytes ∷ turns) block rest small h =
    let (op, num) = acknowledged block rest bytes turns h in
    let turn = stream_turn block rest bytes turns op num in
    let next = (block + 1) % 65536 in
    let chunk = take 512 rest in
    let later = stream_from next (drop 512 rest) turns in
    elim (Bool-cases (ltb (length chunk) 512)) [
      | inl last ↦
          let done : stream_from block rest (answers bytes ∷ turns)
              ≡ (data_packet block chunk ∷ [], completed) =
            turn ∙ rw last refl in
          let whole : chunk ≡ rest = take_short 512 rest (ltb-lt (length chunk) 512 last) in
          let got : receive block (data_packet block chunk ∷ []) ≡ some chunk =
            receive_data block chunk [] small ∙ rw last refl in
          ap (λ (r : List (List ℕ) × Ending). receive block r.0) done ∙ got ∙ ap some whole
      | inr full ↦
          let on : stream_from block rest (answers bytes ∷ turns)
              ≡ (data_packet block chunk ∷ later.0, later.1) =
            turn ∙ rw full refl in
          let ends : later.1 ≡ completed = ap (λ (r : List (List ℕ) × Ending). r.1) (sym on) ∙ h in
          let ih : receive next later.0 ≡ some (drop 512 rest) =
            stream_from-receive turns next (drop 512 rest) (omega arith) ends in
          let got : receive block (data_packet block chunk ∷ later.0)
              ≡ some (chunk ++ drop 512 rest) =
            receive_data block chunk later.0 small ∙ rw (full, ih) refl in
          ap (λ (r : List (List ℕ) × Ending). receive block r.0) on
          ∙ got
          ∙ ap some (take-append-drop 512 rest)
    ]

-- A receiver that takes the blocks in order, counting modulo 2 ^ 16, and stops at the first block
-- of less than 512 bytes, has exactly the content after every transfer that completes, whatever
-- its length.
pub stream_data-receive :
    (content : List ℕ) (turns : List Turn)
    → (stream_data content turns).1 ≡ completed
    → receive 1 (stream_data content turns).0 ≡ some content
unfolding stream_data
stream_data-receive content turns h = stream_from-receive turns 1 content (omega arith) h
