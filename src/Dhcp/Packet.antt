-- ===== src/Dhcp/Packet.antt =====
-- packet.go: the fixed fields of a DHCP message.
pub mod Layout
pub mod RoundTrip
use mydhcp.Common.{
  ℕ, ◌+◌, ◌-◌, ◌*◌, ◌/◌, ◌%◌, List, [], ◌∷◌, ◌++◌, Option, some, none, Bool, ◌==◌, ltb, leb, ◌&&◌,
  not, if◌then◌else◌, length, take, drop, replicate, min, Result, ok, err, ite, ◌=?◌, text_eq,
}
use mydhcp.Net.{Ip}
use mydhcp.Text.{hex}
use mydhcp.Dhcp.Options.{
  Options, ParseError, packet_too_short, invalid_cookie, parse_options, serialize_options,
  options_client_id, encode_ip,
}

-- `none` in an address field is nil.
pub record Packet : Type 0 where
  pub op : ℕ
  pub htype : ℕ
  pub hlen : ℕ
  pub hops : ℕ
  pub xid : ℕ
  pub secs : ℕ
  pub flags : ℕ
  pub ciaddr : Option Ip
  pub yiaddr : Option Ip
  pub siaddr : Option Ip
  pub giaddr : Option Ip
  pub chaddr : List ℕ
  pub sname : List ℕ
  pub file : List ℕ
  pub options : Options

-- `p.Flags&0x8000 != 0` of a 16-bit field.
unfoldable pub broadcast_requested : Packet → Bool
broadcast_requested p = not (p.flags / 32768 % 2 == 0)

-- Packet.ClientID
unfoldable pub client_id : Packet → List ℕ
unfolding hex
client_id p = let id = options_client_id p.options in ite (id =? []) (hex p.chaddr) id

-- `data[i]`, within the slice.
unfoldable pub at : List ℕ → ℕ → ℕ
at bytes i = elim (drop i bytes) [ [] ↦ 0 | b ∷ bs ↦ b ]

-- binary.BigEndian.Uint16 and Uint32 at an offset.
unfoldable pub uint16_at : List ℕ → ℕ → ℕ
unfolding at
uint16_at bytes i = at bytes i * 256 + at bytes (i + 1)

unfoldable pub uint32_at : List ℕ → ℕ → ℕ
unfolding uint16_at
uint32_at bytes i = uint16_at bytes i * 65536 + uint16_at bytes (i + 2)

-- cloneIP4 at an offset.
unfoldable pub ip_at : List ℕ → ℕ → Ip
unfolding at
ip_at bytes i = record {
  b0 = at bytes i;
  b1 = at bytes (i + 1);
  b2 = at bytes (i + 2);
  b3 = at bytes (i + 3);
}

-- Parse, the fixed fields. The client's address is `min(hlen, 16)` bytes long.
unfoldable pub parse_header : List ℕ → Options → Packet
unfolding uint32_at ip_at
parse_header bytes options = record {
  op = at bytes 0;
  htype = at bytes 1;
  hlen = at bytes 2;
  hops = at bytes 3;
  xid = uint32_at bytes 4;
  secs = uint16_at bytes 8;
  flags = uint16_at bytes 10;
  ciaddr = some (ip_at bytes 12);
  yiaddr = some (ip_at bytes 16);
  siaddr = some (ip_at bytes 20);
  giaddr = some (ip_at bytes 24);
  chaddr = take (min (at bytes 2) 16) (drop 28 bytes);
  sname = take 64 (drop 44 bytes);
  file = take 128 (drop 108 bytes);
  options = options;
}

unfoldable pub has_cookie : List ℕ → Bool
unfolding at
has_cookie bytes =
    (at bytes 236 == 99 && at bytes 237 == 130) && (at bytes 238 == 83 && at bytes 239 == 99)

unfoldable pub parse : List ℕ → Result ParseError Packet
parse bytes =
    if ltb (length bytes) 236
    then err packet_too_short
    else if leb (length bytes) 240
    then ok (parse_header bytes [])
    else if has_cookie bytes
    then elim (parse_options (drop 240 bytes)) [
      | ok options ↦ ok (parse_header bytes options)
      | err e ↦ err e
    ]
    else err invalid_cookie

-- `copy(buf[i:i+n], src)` into zeroed bytes.
unfoldable pub field : ℕ → List ℕ → List ℕ
field n src = take n (src ++ replicate n 0)

unfoldable pub put_uint16 : ℕ → List ℕ
put_uint16 v = v / 256 % 256 ∷ v % 256 ∷ []

unfoldable pub put_uint32 : ℕ → List ℕ
put_uint32 v = v / 16777216 % 256 ∷ v / 65536 % 256 ∷ v / 256 % 256 ∷ v % 256 ∷ []

-- Packet.Serialize: the fields at their offsets, one behind the other. putIP4 leaves the zeros
-- where an address is nil, which is what `encode_ip` gives.
unfoldable pub serialize : Packet → List ℕ
unfolding put_uint16 put_uint32
serialize p =
    p.op
    ∷ p.htype
    ∷ p.hlen
    ∷ p.hops
    ∷ (put_uint32 p.xid
        ++ (put_uint16 p.secs
            ++ (put_uint16 p.flags
                ++ (encode_ip p.ciaddr
                    ++ (encode_ip p.yiaddr
                        ++ (encode_ip p.siaddr
                            ++ (encode_ip p.giaddr
                                ++ (field 16 p.chaddr
                                    ++ (field 64 p.sname
                                        ++ (field 128 p.file
                                            ++ serialize_options p.options))))))))))
