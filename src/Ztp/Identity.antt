-- ===== src/Ztp/Identity.antt =====
-- The texts that stand for a device: the key of its record, and the client id of its reservation.
use mydhcp.Common.{
  ℕ, ◌≡◌, ◌≢◌, ap, sym, ◌∙◌, List, ◌∷◌, some, arith, length, ite, ◌=?◌, text_eq, nat_eq,
}
use mydhcp.Common.Maps.{lookup, lookup-insert}
use mydhcp.Text.{hex, colon_hex}
use mydhcp.Text.Injective.{AreBytes, hex-injective, length-hex, length-colon_hex}
use mydhcp.Ztp.Defs.{Device, Ztp, mac_key, device_client_id, put_device, get_device}
use mydhcp.Dhcp.Options.{opt_client_id, client_id_text, options_client_id}
use mydhcp.Dhcp.Packet.{Packet, client_id}

-- A device record that is put is found under its own hardware address, and every other address
-- finds what it found before, for addresses made of bytes.
pub get_device-put_device :
    (z : Ztp) (d : Device) (mac : List ℕ)
    → AreBytes d.mac
    → AreBytes mac
    → get_device (put_device z d) mac ≡ ite (d.mac =? mac) (some d) (get_device z mac)
unfolding get_device put_device mac_key
get_device-put_device z d mac p q = elim (d.mac =? mac) [
  | yes same ↦ ground (arith, same, lookup-insert (hex d.mac) (hex mac) d z.devices)
  | no other ↦
      ground
        (arith, other, lookup-insert (hex d.mac) (hex mac) d z.devices, hex-injective d.mac mac p q)
]

-- Option 61 of an Ethernet client is read as a text with colons.
ethernet_id :
    (pkt : Packet) (x : ℕ) (xs : List ℕ)
    → length xs ≡ 5
    → lookup opt_client_id pkt.options ≡ some (1 ∷ x ∷ xs)
    → client_id pkt ≡ colon_hex (x ∷ xs)
unfolding client_id options_client_id client_id_text colon_hex
ethernet_id pkt x xs five h = ground (arith, h, five)

-- A client that sends its six-byte Ethernet address as option 61 has a client id that differs from
-- the client id of every device's reservation.
pub client_id-ne-device_client_id :
    (pkt : Packet) (d : Device) (x : ℕ) (xs : List ℕ)
    → length xs ≡ 5
    → lookup opt_client_id pkt.options ≡ some (1 ∷ x ∷ xs)
    → client_id pkt ≢ device_client_id d
unfolding device_client_id
client_id-ne-device_client_id pkt d x xs five h same =
    let lengths : length (colon_hex (x ∷ xs)) ≡ length (hex d.mac) =
      ap length (sym (ethernet_id pkt x xs five h) ∙ same) in
    omega (arith, lengths, length-hex d.mac, length-colon_hex x xs)
