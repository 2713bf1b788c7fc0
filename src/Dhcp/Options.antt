-- ===== src/Dhcp/Options.antt =====
-- options.go: the options field of a packet.
use mydhcp.Common.{
  ℕ, zero, suc, ◌+◌, ◌/◌, ◌%◌, List, [], ◌∷◌, ◌++◌, Option, some, none, ◌==◌, ltb, ◌&&◌,
  if◌then◌else◌, length, take, drop, Result, ok, err, nat_eq,
}
pub mod RoundTrip
use mydhcp.Common.Maps.{Map, lookup, insert}
use mydhcp.Net.{Ip}
use mydhcp.Text.{hex, colon_hex}

abbrev pub opt_subnet_mask : ℕ
opt_subnet_mask = 1

abbrev pub opt_router : ℕ
opt_router = 3

abbrev pub opt_dns : ℕ
opt_dns = 6

abbrev pub opt_broadcast_address : ℕ
opt_broadcast_address = 28

abbrev pub opt_requested_ip : ℕ
opt_requested_ip = 50

abbrev pub opt_lease_time : ℕ
opt_lease_time = 51

abbrev pub opt_msg_type : ℕ
opt_msg_type = 53

abbrev pub opt_server_id : ℕ
opt_server_id = 54

abbrev pub opt_vendor_class : ℕ
opt_vendor_class = 60

abbrev pub opt_client_id : ℕ
opt_client_id = 61

abbrev pub opt_tftp_server : ℕ
opt_tftp_server = 66

abbrev pub opt_bootfile : ℕ
opt_bootfile = 67

abbrev pub opt_end : ℕ
opt_end = 255

-- The codes of option 53.
abbrev pub msg_discover : ℕ
msg_discover = 1

abbrev pub msg_offer : ℕ
msg_offer = 2

abbrev pub msg_request : ℕ
msg_request = 3

abbrev pub msg_decline : ℕ
msg_decline = 4

abbrev pub msg_ack : ℕ
msg_ack = 5

abbrev pub msg_nak : ℕ
msg_nak = 6

abbrev pub msg_release : ℕ
msg_release = 7

abbrev pub msg_inform : ℕ
msg_inform = 8

abbrev pub Options : Type 0
Options = Map ℕ (List ℕ)

-- `stuck` is no value of the program: the loop ran out of fuel.
pub data ParseError : Type 0 where
  missing_length overflows_buffer : ℕ → ParseError
  packet_too_short invalid_cookie stuck : ParseError

-- The part of the loop of ParseOptions after a code that is neither padding nor the end; `more`
-- goes on with the rest of the data.
unfoldable pub parse_value :
    (List ℕ → Options → Result ParseError Options)
    → ℕ
    → List ℕ
    → Options
    → Result ParseError Options
parse_value more code [] opts = err (missing_length code)
parse_value more code (l ∷ rest) opts =
    if ltb (length rest) l
    then err (overflows_buffer code)
    else more (drop l rest) (insert code (take l rest) opts)

-- Each round takes a byte at least.
unfoldable pub parse_loop : ℕ → List ℕ → Options → Result ParseError Options
unfolding parse_value
parse_loop fuel [] opts = ok opts
parse_loop zero (code ∷ rest) opts = err stuck
parse_loop (suc fuel) (code ∷ rest) opts =
    let skip = parse_loop fuel rest opts in
    let value = parse_value (parse_loop fuel) code rest opts in
    if code == 0 then skip else (if code == opt_end then ok opts else value)

unfoldable pub parse_options : List ℕ → Result ParseError Options
unfolding parse_loop
parse_options bytes = parse_loop (length bytes) bytes []

-- The loop of Options.Serialize over the map.
unfoldable pub serialize_entries : Options → List ℕ
serialize_entries [] = []
serialize_entries ((code, val) ∷ opts) = code ∷ length val % 256 ∷ (val ++ serialize_entries opts)

unfoldable pub serialize_options : Options → List ℕ
unfolding serialize_entries
serialize_options opts = 99 ∷ 130 ∷ 83 ∷ 99 ∷ (serialize_entries opts ++ opt_end ∷ [])

unfoldable pub first_byte : List ℕ → Option ℕ
first_byte [] = none
first_byte (b ∷ bs) = some b

-- Options.MsgType
unfoldable pub msg_type : Options → Option ℕ
unfolding first_byte
msg_type opts = elim (lookup opt_msg_type opts) [ none ↦ none | some v ↦ first_byte v ]

-- net.IP(v).To4() of a slice: four bytes, or sixteen that map an IPv4 address.
unfoldable pub to4 : List ℕ → Option Ip
to4 (a ∷ b ∷ c ∷ d ∷ []) = some (record { b0 = a; b1 = b; b2 = c; b3 = d })
to4 (z0 ∷ z1 ∷ z2 ∷ z3 ∷ z4 ∷ z5 ∷ z6 ∷ z7 ∷ z8 ∷ z9 ∷ f0 ∷ f1 ∷ a ∷ b ∷ c ∷ d ∷ []) =
    if z0 + z1 + z2 + z3 + z4 + z5 + z6 + z7 + z8 + z9 == 0 && (f0 == 255 && f1 == 255)
    then some (record { b0 = a; b1 = b; b2 = c; b3 = d })
    else none
to4 v = none

-- The value of an option that holds an address: Options.ServerID and Options.RequestedIP. The
-- test of the length is part of `to4`.
unfoldable pub address_option : ℕ → Options → Option Ip
unfolding to4
address_option code opts = elim (lookup code opts) [ none ↦ none | some v ↦ to4 v ]

unfoldable pub server_id : Options → Option Ip
unfolding address_option
server_id opts = address_option opt_server_id opts

unfoldable pub requested_ip : Options → Option Ip
unfolding address_option
requested_ip opts = address_option opt_requested_ip opts

-- Options.ClientID of the option's value: a MAC address behind the type 1, or the bytes.
unfoldable pub client_id_text : List ℕ → List ℕ
unfolding hex colon_hex
client_id_text [] = []
client_id_text (t ∷ v) = if t == 1 && length v == 6 then colon_hex v else hex (t ∷ v)

unfoldable pub options_client_id : Options → List ℕ
unfolding client_id_text
options_client_id opts = elim (lookup opt_client_id opts) [ none ↦ [] | some v ↦ client_id_text v ]

unfoldable pub vendor_class : Options → List ℕ
vendor_class opts = elim (lookup opt_vendor_class opts) [ none ↦ [] | some v ↦ v ]

-- EncodeIP, EncodeIPs, EncodeUint32
unfoldable pub encode_ip : Option Ip → List ℕ
encode_ip none = 0 ∷ 0 ∷ 0 ∷ 0 ∷ []
encode_ip (some a) = a.b0 ∷ a.b1 ∷ a.b2 ∷ a.b3 ∷ []

unfoldable pub encode_ips : List (Option Ip) → List ℕ
unfolding encode_ip
encode_ips [] = []
encode_ips (a ∷ as') = encode_ip a ++ encode_ips as'

unfoldable pub encode_uint32 : ℕ → List ℕ
encode_uint32 v = v / 16777216 % 256 ∷ v / 65536 % 256 ∷ v / 256 % 256 ∷ v % 256 ∷ []
