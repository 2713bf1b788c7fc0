-- ===== src/Dhcp/Packet/RoundTrip.antt =====
-- Parsing a packet gives back what was serialised.
use mathlib.Core.List.{append_assoc}
use native.Mathlib.Nat.{zero-add, suc-add}
use mydhcp.Common.{
  ℕ, zero, suc, ◌+◌, ◌*◌, ◌/◌, ◌%◌, ◌≤◌, ◌<◌, ◌≡◌, refl, ap, ◌∙◌, List, [], ◌∷◌, ◌++◌, some, true,
  false, arith, length, take, drop, replicate, min, length-append, take_of_length-append,
  drop_of_length-append, ltb, leb, ok,
}
use mydhcp.Dhcp.Options.{Options, opt_end, parse_options, serialize_entries, serialize_options}
use mydhcp.Dhcp.Options.RoundTrip.{Encodable, parse_options-serialize}
use mydhcp.Dhcp.Packet.{Packet, parse_header, has_cookie, parse, field, serialize}
use mydhcp.Dhcp.Packet.Layout.{
  or_zero, length-field, padded, length-padded, layout, serialize-layout,
}

-- A packet whose fields fit the wire format.
pub record IsPacket (p : Packet) : Type 0 where
  pub xid_fits : p.xid < 4294967296
  pub secs_fits : p.secs < 65536
  pub flags_fits : p.flags < 65536
  pub chaddr_length : length p.chaddr ≡ p.hlen
  pub chaddr_fits : p.hlen ≤ 16
  pub sname_length : length p.sname ≡ 64
  pub file_length : length p.file ≡ 128
  pub options_fit : Encodable p.options

field_of_length : (n : ℕ) (src : List ℕ) → length src ≡ n → field n src ≡ src
unfolding field
field_of_length n src h = take_of_length-append n src (replicate n 0) h

take_padded :
    (k n : ℕ) (src pad rest : List ℕ)
    → length src ≡ k
    → k ≤ n
    → take k (take n (src ++ pad) ++ rest) ≡ src
take_padded zero n [] pad rest h le = refl
take_padded zero n (x ∷ src) pad rest h le = absurd (omega arith)
take_padded (suc k) n [] pad rest h le = absurd (omega arith)
take_padded (suc k) zero (x ∷ src) pad rest h le = absurd (omega arith)
take_padded (suc k) (suc n) (x ∷ src) pad rest h le =
    ap (◌∷◌ x) (take_padded k n src pad rest (omega arith) (omega arith))

drop_past : (n k : ℕ) (xs ys : List ℕ) → length xs ≡ n → drop (n + k) (xs ++ ys) ≡ drop k ys
drop_past zero k [] ys h = rw zero-add
drop_past zero k (x ∷ xs) ys h = absurd (omega arith)
drop_past (suc n) k [] ys h = absurd (omega arith)
drop_past (suc n) k (x ∷ xs) ys h = rw suc-add (drop_past n k xs ys (omega arith))

-- The packet that the wire carries: a nil address is 0.0.0.0.
abbrev pub on_wire : Packet → Packet
on_wire p = record p {
  ciaddr = some (or_zero p.ciaddr);
  yiaddr = some (or_zero p.yiaddr);
  siaddr = some (or_zero p.siaddr);
  giaddr = some (or_zero p.giaddr);
}

no_short : (n : ℕ) → 240 < n → ltb n 236 ≡ false
no_short n h = ground arith

no_bare : (n : ℕ) → 240 < n → leb n 240 ≡ false
no_bare n h = ground arith

parse_accepts :
    (bytes : List ℕ) (opts : Options)
    → 240 < length bytes
    → has_cookie bytes ≡ true
    → parse_options (drop 240 bytes) ≡ ok opts
    → parse bytes ≡ ok (parse_header bytes opts)
unfolding parse
parse_accepts bytes opts long cookie options =
    let short : ltb (length bytes) 236 ≡ false = no_short (length bytes) long in
    let bare : leb (length bytes) 240 ≡ false = no_bare (length bytes) long in
    rw (short, bare, cookie, options)

module _ (p : Packet) (w : IsPacket p) where
  abbrev rest : List ℕ
  rest = padded p ++ serialize_options p.options

  regroup :
      rest
      ≡ field 16 p.chaddr ++ (field 64 p.sname ++ (field 128 p.file ++ serialize_options p.options))
  regroup =
      append_assoc (field 16 p.chaddr ++ field 64 p.sname) (field 128 p.file)
        (serialize_options p.options)
      ∙ append_assoc (field 16 p.chaddr) (field 64 p.sname)
          (field 128 p.file ++ serialize_options p.options)

  chaddr_back : take (min p.hlen 16) (drop 28 (layout p rest)) ≡ p.chaddr
  unfolding field
  chaddr_back =
      let e : min p.hlen 16 ≡ p.hlen = omega (arith, w.chaddr_fits) in
      rw (e, regroup)
        (take_padded p.hlen 16 p.chaddr (replicate 16 0)
          (field 64 p.sname ++ (field 128 p.file ++ serialize_options p.options)) w.chaddr_length
          w.chaddr_fits)

  sname_back : take 64 (drop 44 (layout p rest)) ≡ p.sname
  sname_back =
      ap (λ (l : List ℕ). take 64 (drop 16 l)) regroup
      ∙ ap (take 64) (drop_of_length-append 16 (field 16 p.chaddr) _ (length-field 16 p.chaddr))
      ∙ take_of_length-append 64 (field 64 p.sname) _ (length-field 64 p.sname)
      ∙ field_of_length 64 p.sname w.sname_length

  file_back : take 128 (drop 108 (layout p rest)) ≡ p.file
  file_back =
      let both : length (field 16 p.chaddr ++ field 64 p.sname) ≡ 80 = omega (
        arith,
        length-append (field 16 p.chaddr) (field 64 p.sname),
        length-field 16 p.chaddr,
        length-field 64 p.sname,
      ) in
      ap (λ (l : List ℕ). take 128 (drop 80 l))
        (append_assoc (field 16 p.chaddr ++ field 64 p.sname) (field 128 p.file)
          (serialize_options p.options))
      ∙ ap (take 128) (drop_of_length-append 80 (field 16 p.chaddr ++ field 64 p.sname) _ both)
      ∙ take_of_length-append 128 (field 128 p.file) _ (length-field 128 p.file)
      ∙ field_of_length 128 p.file w.file_length

  word_back : (v : ℕ) → v < 65536 → v / 256 % 256 * 256 + v % 256 ≡ v
  word_back v h = omega arith

  xid_back :
      (p.xid / 16777216 % 256 * 256 + p.xid / 65536 % 256) * 65536
        + (p.xid / 256 % 256 * 256 + p.xid % 256)
      ≡ p.xid
  xid_back = omega (arith, w.xid_fits)

  header_back :
      (opts : Options) → parse_header (layout p rest) opts ≡ record (on_wire p) { options = opts }
  unfolding parse_header
  header_back opts = λ i. record {
    op = p.op;
    htype = p.htype;
    hlen = p.hlen;
    hops = p.hops;
    xid = xid_back i;
    secs = word_back p.secs w.secs_fits i;
    flags = word_back p.flags w.flags_fits i;
    ciaddr = some (or_zero p.ciaddr);
    yiaddr = some (or_zero p.yiaddr);
    siaddr = some (or_zero p.siaddr);
    giaddr = some (or_zero p.giaddr);
    chaddr = chaddr_back i;
    sname = sname_back i;
    file = file_back i;
    options = opts;
  }

  options_at : (k : ℕ) → drop (208 + k) rest ≡ drop k (serialize_options p.options)
  options_at k = drop_past 208 k (padded p) (serialize_options p.options) (length-padded p)

  cookie_back : has_cookie (layout p rest) ≡ true
  unfolding has_cookie serialize_options
  cookie_back =
      let d0 : drop 208 rest ≡ serialize_options p.options = options_at 0 in
      let d1 : drop 209 rest ≡ drop 1 (serialize_options p.options) = options_at 1 in
      let d2 : drop 210 rest ≡ drop 2 (serialize_options p.options) = options_at 2 in
      let d3 : drop 211 rest ≡ drop 3 (serialize_options p.options) = options_at 3 in
      ground (arith, d0, d1, d2, d3)

  options_back : parse_options (drop 240 (layout p rest)) ≡ ok p.options
  unfolding serialize_options
  options_back =
      let d4 : drop 212 rest ≡ serialize_entries p.options ++ opt_end ∷ [] = options_at 4 in
      ap parse_options d4 ∙ parse_options-serialize p.options [] w.options_fit

  pub long_enough : 240 < length (layout p rest)
  unfolding serialize_options
  long_enough = omega (
    arith,
    length-append (padded p) (serialize_options p.options),
    length-padded p,
    length-append (serialize_entries p.options) (opt_end ∷ []),
  )

  -- Parsing the serialised bytes of a packet whose fields fit the wire gives the packet back, with
  -- 0.0.0.0 for a nil address.
  pub parse-serialize : parse (serialize p) ≡ ok (on_wire p)
  parse-serialize =
      ap parse (serialize-layout p)
      ∙ parse_accepts (layout p rest) p.options long_enough cookie_back options_back
      ∙ ap ok (header_back p.options)
