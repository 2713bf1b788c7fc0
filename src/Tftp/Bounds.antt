-- ===== src/Tftp/Bounds.antt =====
-- internal/ztp/tftp.go, streamData: how much a transfer writes.
use mydhcp.Common.{
  ℕ, suc, ◌+◌, ◌-◌, ◌/◌, ◌%◌, ◌≤◌, ◌≡◌, refl, subst, List, [], ◌∷◌, Bool, true, false, not, ltb,
  ◌==◌, if◌then◌else◌, length, take, drop, min, length-take, length-drop, arith,
}
use mydhcp.Dhcp.Packet.{uint16_at, put_uint16}
use mydhcp.Tftp.{
  Turn, write_fails, read_fails, answers, Ending, completed, wrong_opcode, wrong_block, data_packet,
  ack_buffer, stream_from, stream_data,
}
use mydhcp.Tftp.Transfer.{ltb-le}

-- Each packet holds a block at most.
abbrev pub AreShort : List (List ℕ) → Type 0
AreShort [] = Unit {0}
AreShort (pkt ∷ pkts) = (length pkt ≤ 516) × AreShort pkts

length-data_packet : (block : ℕ) (rest : List ℕ) → length (data_packet block (take 512 rest)) ≤ 516
unfolding data_packet put_uint16
length-data_packet block rest = omega (arith, length-take 512 rest)

-- What an acknowledged turn writes, whatever its three tests come to.
turn_bounds :
    (pkt : List ℕ) (later : List (List ℕ)) (x y z w : Ending) (op num last : Bool) (n t : ℕ)
    → length pkt ≤ 516
    → AreShort later
    → (last ≡ false → length later ≤ n)
    → length later ≤ t
    → (let r : List (List ℕ) × Ending =
          if not op
          then (pkt ∷ [], x)
          else (if not num
              then (pkt ∷ [], y)
              else (if last then (pkt ∷ [], z) else (pkt ∷ later, w))) in
        AreShort r.0 × (length r.0 ≤ n + 1) × (length r.0 ≤ suc t))
turn_bounds pkt later x y z w false num last n t short all few turned =
    ((short, tt), omega arith, omega arith)
turn_bounds pkt later x y z w true false last n t short all few turned =
    ((short, tt), omega arith, omega arith)
turn_bounds pkt later x y z w true true true n t short all few turned =
    ((short, tt), omega arith, omega arith)
turn_bounds pkt later x y z w true true false n t short all few turned =
    ((short, all), omega (arith, few refl), omega arith)

length_after : (m n k : ℕ) → k ≡ min 512 m → 512 ≤ k → n ≤ (m - 512) / 512 + 1 → n ≤ m / 512
length_after m n k e h f = omega arith

stream_from_bounds :
    (turns : List Turn) (block : ℕ) (rest : List ℕ)
    → AreShort (stream_from block rest turns).0
      × (length (stream_from block rest turns).0 ≤ length rest / 512 + 1)
      × (length (stream_from block rest turns).0 ≤ length turns)
unfolding stream_from
stream_from_bounds [] block rest = (tt, omega arith, omega arith)
stream_from_bounds (write_fails ∷ turns) block rest = (tt, omega arith, omega arith)
stream_from_bounds (read_fails ∷ turns) block rest =
    ((length-data_packet block rest, tt), omega arith, omega arith)
stream_from_bounds (answers bytes ∷ turns) block rest =
    let later = stream_from ((block + 1) % 65536) (drop 512 rest) turns in
    let (short, few, turned) = stream_from_bounds turns ((block + 1) % 65536) (drop 512 rest) in
    turn_bounds (data_packet block (take 512 rest)) later.0
      (wrong_opcode (uint16_at (ack_buffer bytes) 0))
      (wrong_block (uint16_at (ack_buffer bytes) 2) block) completed later.1
      (uint16_at (ack_buffer bytes) 0 == 4) (uint16_at (ack_buffer bytes) 2 == block)
      (ltb (length (take 512 rest)) 512) (length rest / 512) (length turns)
      (length-data_packet block rest) short
      (λ full.
        length_after (length rest) (length later.0) (length (take 512 rest)) (length-take 512 rest)
          (ltb-le (length (take 512 rest)) 512 full)
          (subst (λ k. length later.0 ≤ k / 512 + 1) (length-drop 512 rest) few))
      turned

-- Whatever the client answers, a transfer writes packets of at most 516 bytes, at most one more
-- than the content has whole blocks, and at most one for each turn.
pub stream_data_bounds :
    (content : List ℕ) (turns : List Turn)
    → AreShort (stream_data content turns).0
      × (length (stream_data content turns).0 ≤ length content / 512 + 1)
      × (length (stream_data content turns).0 ≤ length turns)
unfolding stream_data
stream_data_bounds content turns = stream_from_bounds turns 1 content
