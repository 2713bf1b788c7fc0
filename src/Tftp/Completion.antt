-- ===== src/Tftp/Completion.antt =====
-- internal/ztp/tftp.go, streamData: a transfer to a client that acknowledges each block.
use mydhcp.Common.{
  ℕ, zero, suc, ◌+◌, ◌-◌, ◌/◌, ◌%◌, ◌≤◌, ◌<◌, ◌≡◌, refl, ap, ◌∙◌, subst, List, [], ◌∷◌, ◌++◌, ltb,
  if◌then◌else◌, length, take, drop, min, length-take, length-drop, arith, Bool-cases, inl, inr,
}
use mydhcp.Dhcp.Packet.{at, uint16_at, put_uint16}
use mydhcp.Tftp.{
  Turn, answers, Ending, completed, data_packet, ack_buffer, stream_from, stream_data,
}
use mydhcp.Tftp.Transfer.{ltb-lt, ltb-le, block_read, stream_turn}

-- The turns of a client that acknowledges `n` blocks in order.
unfoldable pub acks : ℕ → ℕ → List Turn
unfolding put_uint16
acks block zero = []
acks block (suc n) = answers (put_uint16 4 ++ put_uint16 block) ∷ acks ((block + 1) % 65536) n

ack_read :
    (block : ℕ)
    → block < 65536
    → (uint16_at (ack_buffer (put_uint16 4 ++ put_uint16 block)) 0 ≡ 4)
      × (uint16_at (ack_buffer (put_uint16 4 ++ put_uint16 block)) 2 ≡ block)
unfolding uint16_at at ack_buffer put_uint16
ack_read block small = (refl, block_read block small)

-- What a turn that is acknowledged in order writes.
turn_in_order :
    (block : ℕ) (rest : List ℕ) (turns : List Turn)
    → block < 65536
    → stream_from block rest (answers (put_uint16 4 ++ put_uint16 block) ∷ turns) ≡ (
        let pkt = data_packet block (take 512 rest) in
        let later = stream_from ((block + 1) % 65536) (drop 512 rest) turns in
        if ltb (length (take 512 rest)) 512
        then (pkt ∷ [], completed)
        else (pkt ∷ later.0, later.1))
turn_in_order block rest turns small =
    let (op, num) = ack_read block small in
    stream_turn block rest (put_uint16 4 ++ put_uint16 block) turns op num

last_turn : (m k : ℕ) → k ≡ min 512 m → k < 512 → m / 512 ≡ 0
last_turn m k e h = omega arith

later_turn : (m k : ℕ) → k ≡ min 512 m → 512 ≤ k → m / 512 ≡ suc ((m - 512) / 512)
later_turn m k e h = omega arith

-- With as many acknowledgements as there are blocks the transfer completes.
stream_from-acks :
    (n block : ℕ) (rest : List ℕ)
    → block < 65536
    → length rest / 512 ≡ n
    → ((stream_from block rest (acks block (suc n))).1 ≡ completed)
      × (length (stream_from block rest (acks block (suc n))).0 ≡ suc n)
unfolding acks
stream_from-acks zero block rest small blocks =
    let chunk = take 512 rest in
    elim (Bool-cases (ltb (length chunk) 512)) [
      | inl last ↦
          let done : stream_from block rest (acks block 1)
              ≡ (data_packet block chunk ∷ [], completed) =
            turn_in_order block rest [] small ∙ rw last refl in
          (rw done refl, rw done refl)
      | inr full ↦
          let more =
            later_turn (length rest) (length chunk) (length-take 512 rest)
              (ltb-le (length chunk) 512 full) in
          absurd (omega (arith, more, blocks))
    ]
stream_from-acks (suc n) block rest small blocks =
    let next = (block + 1) % 65536 in
    let chunk = take 512 rest in
    let later = stream_from next (drop 512 rest) (acks next (suc n)) in
    elim (Bool-cases (ltb (length chunk) 512)) [
      | inl last ↦
          let over =
            last_turn (length rest) (length chunk) (length-take 512 rest)
              (ltb-lt (length chunk) 512 last) in
          absurd (omega (arith, over, blocks))
      | inr full ↦
          let more =
            later_turn (length rest) (length chunk) (length-take 512 rest)
              (ltb-le (length chunk) 512 full) in
          let left : length (drop 512 rest) / 512 ≡ n =
            ap (λ k. k / 512) (length-drop 512 rest) ∙ omega (arith, more, blocks) in
          let on : stream_from block rest (acks block (suc (suc n)))
              ≡ (data_packet block chunk ∷ later.0, later.1) =
            turn_in_order block rest (acks next (suc n)) small ∙ rw full refl in
          let (ends, count) = stream_from-acks n next (drop 512 rest) (omega arith) left in
          (
            ap (λ (r : List (List ℕ) × Ending). r.1) on ∙ ends,
            ap (λ (r : List (List ℕ) × Ending). length r.0) on ∙ ap suc count,
          )
    ]

-- With the acknowledgements of as many blocks as the content has, in order, a transfer completes,
-- and it has written that many packets: one more than the whole blocks of the content.
pub stream_data-acks :
    (content : List ℕ)
    → ((stream_data content (acks 1 (length content / 512 + 1))).1 ≡ completed)
      × (length (stream_data content (acks 1 (length content / 512 + 1))).0
          ≡ length content / 512 + 1)
unfolding stream_data
stream_data-acks content =
    subst
      (λ k.
        ((stream_from 1 content (acks 1 k)).1 ≡ completed)
        × (length (stream_from 1 content (acks 1 k)).0 ≡ k))
      (omega arith) (stream_from-acks (length content / 512) 1 content (omega arith) refl)
