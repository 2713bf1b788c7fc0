-- ===== src/Tftp.antt =====
-- internal/ztp/tftp.go: the read-only TFTP server. A transfer takes what its writes and reads
-- come to, turn by turn. The loop that reads the requests is in Tftp/Buffer.
pub mod Filename
pub mod Buffer
pub mod Transfer
pub mod Bounds
pub mod Completion
pub mod Service
use mydhcp.Common.{
  ℕ, ◌+◌, ◌-◌, ◌*◌, ◌%◌, List, [], ◌∷◌, ◌++◌, Option, some, none, Bool, true, false, not, ltb, ◌==◌,
  ◌||◌, if◌then◌else◌, ite, ◌=?◌, text_eq, length, take, drop, replicate, Result, ok, err,
}
use mydhcp.Subnet.{Manager}
use mydhcp.Ztp.Defs.{Ztp}
use mydhcp.Ztp.Ops.{
  Error, device_not_found, dynamic_device, no_profile_assigned, assigned_profile_not_found,
  lookup_for_tftp,
}
use mydhcp.Ztp.Render.{Template, device_config}
use mydhcp.Dhcp.Packet.{at, uint16_at, put_uint16}

-- A hexadecimal digit, as net.ParseMAC reads it.
unfoldable pub hex_value : ℕ → Option ℕ
hex_value c =
    if ltb c 48
    then none
    else if ltb c 58
    then some (c - 48)
    else if ltb c 65
    then none
    else if ltb c 71
    then some (c - 55)
    else (if ltb c 97 then none else (if ltb c 103 then some (c - 87) else none))

unfoldable pub both_digits : Option ℕ → Option ℕ → Option ℕ
both_digits none low = none
both_digits (some h) none = none
both_digits (some h) (some l) = some (h * 16 + l)

unfoldable pub hex_byte : ℕ → ℕ → Option ℕ
hex_byte a b = both_digits (hex_value a) (hex_value b)

-- net.ParseMAC of pairs of digits with colons between, behind the first pair. The caller has six
-- pairs and a colon between each two, so the library's other forms do not arise.
unfoldable pub parse_mac_rest : List ℕ → Option (List ℕ)
parse_mac_rest [] = some []
parse_mac_rest (sep ∷ []) = none
parse_mac_rest (sep ∷ a ∷ []) = none
parse_mac_rest (sep ∷ a ∷ b ∷ rest) =
    let bytes = parse_mac_rest rest in
    if sep == b':'
    then elim (hex_byte a b) [
      | none ↦ none
      | some v ↦ elim bytes [ none ↦ none | some vs ↦ some (v ∷ vs) ]
    ]
    else none

unfoldable pub parse_mac : List ℕ → Option (List ℕ)
parse_mac [] = none
parse_mac (a ∷ rest) = parse_mac_rest (b':' ∷ a ∷ rest)

-- The loop of parseMACFromFilename: a colon in front of each pair but the first.
unfoldable pub colons_rest : List ℕ → List ℕ
colons_rest [] = []
colons_rest (a ∷ []) = []
colons_rest (a ∷ b ∷ rest) = b':' ∷ a ∷ b ∷ colons_rest rest

unfoldable pub with_colons : List ℕ → List ℕ
with_colons [] = []
with_colons (a ∷ []) = []
with_colons (a ∷ b ∷ rest) = a ∷ b ∷ colons_rest rest

unfoldable pub has_slash : List ℕ → Bool
has_slash [] = false
has_slash (c ∷ cs) = c == b'/' || has_slash cs

-- What stands behind the last slash.
unfoldable pub base_name : List ℕ → List ℕ
unfolding has_slash
base_name [] = []
base_name (c ∷ cs) =
    let rest = base_name cs in if has_slash cs then rest else (if c == b'/' then cs else c ∷ cs)

abbrev pub cfg_suffix : List ℕ
cfg_suffix = b'.' ∷ b'c' ∷ b'f' ∷ b'g' ∷ []

-- strings.TrimSuffix of ".cfg"
unfoldable pub trim_cfg : List ℕ → List ℕ
trim_cfg name =
    let kept = length name - 4 in ite (drop kept name =? cfg_suffix) (take kept name) name

unfoldable pub parse_mac_from_filename : List ℕ → Option (List ℕ)
parse_mac_from_filename filename =
    let name = trim_cfg (base_name filename) in
    if length name == 12 then parse_mac (with_colons name) else none

-- Why a request is refused; the text of an error packet is left out.
pub data Refusal : Type 0 where
  write_unsupported unexpected_opcode malformed unparseable : Refusal
  lookup_failed : Error → Refusal
  template_failed : Refusal

-- The test of the error by its text; a profile whose name has the text of another error is left out.
unfoldable pub lookup_code : Error → ℕ
lookup_code dynamic_device = 2
lookup_code e = 1

-- The error code that goes with the refusal.
unfoldable pub error_code : Refusal → ℕ
unfolding lookup_code
error_code write_unsupported = 2
error_code unexpected_opcode = 4
error_code malformed = 4
error_code unparseable = 0
error_code (lookup_failed e) = lookup_code e
error_code template_failed = 0

-- sendTFTPError's packet.
unfoldable pub error_packet : ℕ → List ℕ → List ℕ
unfolding put_uint16
error_packet code msg = put_uint16 5 ++ (put_uint16 code ++ (msg ++ 0 ∷ []))

-- The file name of a request: what stands in front of the first zero byte, if there is one.
unfoldable pub split_name : List ℕ → Option (List ℕ)
split_name [] = none
split_name (c ∷ cs) =
    let rest = split_name cs in
    if c == 0 then some [] else elim rest [ none ↦ none | some name ↦ some (c ∷ name) ]

-- handleRRQ up to the transfer: the content to send, or the refusal.
unfoldable pub handle_rrq : Template → Ztp → Manager → List ℕ → Result Refusal (List ℕ)
handle_rrq template z m bytes = elim (split_name bytes) [
  | none ↦ err malformed
  | some filename ↦ elim (parse_mac_from_filename filename) [
    | none ↦ err unparseable
    | some mac ↦ elim (lookup_for_tftp z mac) [
      | err e ↦ err (lookup_failed e)
      | ok found ↦ elim (device_config template m found.0 found.1) [
        | none ↦ err template_failed
        | some content ↦ ok content
      ]
    ]
  ]
]

-- handleTFTPRequest; a datagram of less than two bytes is ignored.
unfoldable pub handle_tftp_request :
    Template → Ztp → Manager → List ℕ → Option (Result Refusal (List ℕ))
handle_tftp_request template z m bytes =
    if ltb (length bytes) 2
    then none
    else if uint16_at bytes 0 == 1
    then some (handle_rrq template z m (drop 2 bytes))
    else if uint16_at bytes 0 == 2
    then some (err write_unsupported)
    else some (err unexpected_opcode)

-- What a block's write and the read behind it come to.
pub data Turn : Type 0 where
  write_fails read_fails : Turn
  answers : List ℕ → Turn

-- How a transfer ends; `waiting` is one that no turn has ended yet.
pub data Ending : Type 0 where
  completed waiting : Ending
  write_failed read_failed : ℕ → Ending
  wrong_opcode : ℕ → Ending
  wrong_block : ℕ → ℕ → Ending

unfoldable pub data_packet : ℕ → List ℕ → List ℕ
unfolding put_uint16
data_packet block chunk = put_uint16 3 ++ (put_uint16 block ++ chunk)

-- The ack's buffer of four bytes, which starts as zeros.
unfoldable pub ack_buffer : List ℕ → List ℕ
ack_buffer bytes = take 4 (bytes ++ replicate 4 0)

-- The loop of streamTFTPData from a block on, with the rest of the data: the packets that are
-- written, and the ending. `waiting` stands in front of a write whose turn is not known.
unfoldable pub stream_from : ℕ → List ℕ → List Turn → List (List ℕ) × Ending
unfolding data_packet ack_buffer
stream_from block rest [] = ([], waiting)
stream_from block rest (turn ∷ turns) =
    let chunk = take 512 rest in
    let pkt = data_packet block chunk in
    let later = stream_from ((block + 1) % 65536) (drop 512 rest) turns in
    elim turn [
      | write_fails ↦ ([], write_failed block)
      | read_fails ↦ (pkt ∷ [], read_failed block)
      | answers bytes ↦
          let ack = ack_buffer bytes in
          if not (uint16_at ack 0 == 4)
          then (pkt ∷ [], wrong_opcode (uint16_at ack 0))
          else if not (uint16_at ack 2 == block)
          then (pkt ∷ [], wrong_block (uint16_at ack 2) block)
          else (if ltb (length chunk) 512 then (pkt ∷ [], completed) else (pkt ∷ later.0, later.1))
    ]

unfoldable pub stream_data : List ℕ → List Turn → List (List ℕ) × Ending
unfolding stream_from
stream_data content turns = stream_from 1 content turns
