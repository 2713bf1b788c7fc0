-- ===== src/Tftp/Filename.antt =====
-- The file name that the DHCP server hands out is the one that the TFTP server understands.
use mydhcp.Common.{
  ℕ, ◌+◌, ◌-◌, ◌*◌, ◌/◌, ◌%◌, ◌<◌, ◌≡◌, refl, ap, ◌∙◌, List, [], ◌∷◌, ◌++◌, Option, some, true,
  false, ◌==◌, length, length-append, take_of_length-append, drop_of_length-append, if_pos, ◌=?◌,
  text_eq, nat_eq, ℕ_discrete, arith,
}
use mydhcp.Common.Maps.{lookup, insert, lookup-insert}
use mydhcp.Net.{Ip}
use mydhcp.Dhcp.Options.{opt_bootfile, opt_tftp_server}
use mydhcp.Dhcp.Packet.{Packet}
use mydhcp.Dhcp.Reply.{inject_ztp_options, ip_text}
use mydhcp.Text.{hex_digit, hex, colon_hex_rest, colon_hex}
use mydhcp.Text.Injective.{AreBytes, length-hex}
use mydhcp.Ztp.Defs.{Profile}
use mydhcp.Tftp.{
  hex_value, both_digits, hex_byte, parse_mac_rest, parse_mac, colons_rest, with_colons, has_slash,
  base_name, cfg_suffix, trim_cfg, parse_mac_from_filename,
}

hex_value-hex_digit : (n : ℕ) → n < 16 → hex_value (hex_digit n) ≡ some n
unfolding hex_value hex_digit
hex_value-hex_digit n h = ground arith

hex_byte_of :
    (a b x y : ℕ) → hex_value a ≡ some x → hex_value b ≡ some y → hex_byte a b ≡ some (x * 16 + y)
unfolding hex_byte both_digits
hex_byte_of a b x y h k = λ i. both_digits (h i) (k i)

hex_byte-hex_digit : (n : ℕ) → n < 256 → hex_byte (hex_digit (n / 16)) (hex_digit (n % 16)) ≡ some n
hex_byte-hex_digit n h =
    hex_byte_of (hex_digit (n / 16)) (hex_digit (n % 16)) (n / 16) (n % 16)
      (hex_value-hex_digit (n / 16) (omega arith)) (hex_value-hex_digit (n % 16) (omega arith))
    ∙ ap some (omega arith)

parse_mac_pair :
    (a b v : ℕ) (rest vs : List ℕ)
    → hex_byte a b ≡ some v
    → parse_mac_rest rest ≡ some vs
    → parse_mac_rest (b':' ∷ a ∷ b ∷ rest) ≡ some (v ∷ vs)
unfolding parse_mac_rest
parse_mac_pair a b v rest vs h k = rw (h, k) refl

parse_mac_rest-colon_hex_rest :
    (mac : List ℕ) → AreBytes mac → parse_mac_rest (colon_hex_rest mac) ≡ some mac
unfolding colon_hex_rest
parse_mac_rest-colon_hex_rest [] p = unfold parse_mac_rest in refl
parse_mac_rest-colon_hex_rest (b ∷ bs) (small, p) =
    parse_mac_pair (hex_digit (b / 16)) (hex_digit (b % 16)) b (colon_hex_rest bs) bs
      (hex_byte-hex_digit b small) (parse_mac_rest-colon_hex_rest bs p)

colons_rest-hex : (mac : List ℕ) → colons_rest (hex mac) ≡ colon_hex_rest mac
unfolding colons_rest hex colon_hex_rest
colons_rest-hex [] = refl
colons_rest-hex (b ∷ bs) = rw (colons_rest-hex bs) refl

with_colons-hex : (b : ℕ) (bs : List ℕ) → with_colons (hex (b ∷ bs)) ≡ colon_hex (b ∷ bs)
unfolding with_colons hex colon_hex
with_colons-hex b bs = rw (colons_rest-hex bs) refl

-- The colons make the name an address again.
parse_mac-with_colons :
    (mac : List ℕ) → AreBytes mac → 0 < length mac → parse_mac (with_colons (hex mac)) ≡ some mac
parse_mac-with_colons [] p h = absurd (omega arith)
parse_mac-with_colons (b ∷ bs) (small, p) h =
    let pair =
      parse_mac_pair (hex_digit (b / 16)) (hex_digit (b % 16)) b (colon_hex_rest bs) bs
        (hex_byte-hex_digit b small) (parse_mac_rest-colon_hex_rest bs p) in
    ap parse_mac (with_colons-hex b bs) ∙ (unfold parse_mac colon_hex in pair)

hex_digit_no_slash : (n : ℕ) → n < 16 → (hex_digit n == b'/') ≡ false
unfolding hex_digit
hex_digit_no_slash n h = ground arith

has_slash-hex :
    (mac xs : List ℕ) → AreBytes mac → has_slash xs ≡ false → has_slash (hex mac ++ xs) ≡ false
unfolding has_slash hex
has_slash-hex [] xs p h = h
has_slash-hex (b ∷ bs) xs (small, p) h =
    rw
      (
        hex_digit_no_slash (b / 16) (omega arith),
        hex_digit_no_slash (b % 16) (omega arith),
        has_slash-hex bs xs p h,
      )
      refl

base_name_plain : (xs : List ℕ) → has_slash xs ≡ false → base_name xs ≡ xs
unfolding base_name has_slash
base_name_plain [] h = refl
base_name_plain (c ∷ cs) h = ground arith

has_slash_behind : (dir xs : List ℕ) → has_slash (dir ++ b'/' ∷ xs) ≡ true
unfolding has_slash
has_slash_behind [] xs = refl
has_slash_behind (c ∷ cs) xs = ground (arith, has_slash_behind cs xs)

-- Directories in front of a name do not count.
base_name_behind : (dir xs : List ℕ) → has_slash xs ≡ false → base_name (dir ++ b'/' ∷ xs) ≡ xs
unfolding base_name
base_name_behind [] xs h = rw h refl
base_name_behind (c ∷ cs) xs h = rw (has_slash_behind cs xs) (base_name_behind cs xs h)

trim_cfg_suffix : (name : List ℕ) → trim_cfg (name ++ cfg_suffix) ≡ name
unfolding trim_cfg
trim_cfg_suffix name =
    let kept : length (name ++ cfg_suffix) - 4 ≡ length name =
      ap (λ n. n - 4) (length-append name cfg_suffix) ∙ omega arith in
    rw
      (
        kept,
        take_of_length-append (length name) name cfg_suffix refl,
        drop_of_length-append (length name) name cfg_suffix refl,
      )
      (if_pos (cfg_suffix =? cfg_suffix) refl name (name ++ cfg_suffix))

-- A name of twelve digits is an address, behind any directory.
parse_mac_from_filename_behind :
    (dir mac : List ℕ)
    → AreBytes mac
    → length mac ≡ 6
    → parse_mac_from_filename (dir ++ b'/' ∷ (hex mac ++ cfg_suffix)) ≡ some mac
unfolding parse_mac_from_filename has_slash
parse_mac_from_filename_behind dir mac p six =
    let name = base_name_behind dir (hex mac ++ cfg_suffix) (has_slash-hex mac cfg_suffix p refl) in
    let digits : length (hex mac) ≡ 12 = length-hex mac ∙ omega (arith, six) in
    rw (name, trim_cfg_suffix (hex mac), digits) (parse_mac-with_colons mac p (omega (arith, six)))

pub parse_mac_from_filename_plain :
    (mac : List ℕ)
    → AreBytes mac
    → length mac ≡ 6
    → parse_mac_from_filename (hex mac ++ cfg_suffix) ≡ some mac
unfolding parse_mac_from_filename has_slash
parse_mac_from_filename_plain mac p six =
    let name = base_name_plain (hex mac ++ cfg_suffix) (has_slash-hex mac cfg_suffix p refl) in
    let digits : length (hex mac) ≡ 12 = length-hex mac ∙ omega (arith, six) in
    rw (name, trim_cfg_suffix (hex mac), digits) (parse_mac-with_colons mac p (omega (arith, six)))

-- The boot file of an offer.
pub inject_ztp_options_bootfile :
    (pkt : Packet) (server_ip : Option Ip) (mac : List ℕ) (profile : Profile)
    → lookup opt_bootfile (inject_ztp_options pkt server_ip mac (some profile)).options
      ≡ some (hex mac ++ cfg_suffix)
unfolding inject_ztp_options ℕ_discrete
inject_ztp_options_bootfile pkt server_ip mac profile =
    lookup-insert opt_bootfile opt_bootfile (hex mac ++ cfg_suffix)
      (insert opt_tftp_server (ip_text server_ip) pkt.options)

-- C
pub inject_ztp_options-parse_mac_from_filename :
    (pkt : Packet) (server_ip : Option Ip) (mac : List ℕ) (profile : Profile)
    → AreBytes mac
    → length mac ≡ 6
    → (file : List ℕ) × (lookup opt_bootfile
          (inject_ztp_options pkt server_ip mac (some profile)).options
        ≡ some file)
      × (parse_mac_from_filename file ≡ some mac)
      × ((dir : List ℕ) → parse_mac_from_filename (dir ++ b'/' ∷ file) ≡ some mac)
inject_ztp_options-parse_mac_from_filename pkt server_ip mac profile p six = (
  hex mac ++ cfg_suffix,
  inject_ztp_options_bootfile pkt server_ip mac profile,
  parse_mac_from_filename_plain mac p six,
  λ dir. parse_mac_from_filename_behind dir mac p six,
)
