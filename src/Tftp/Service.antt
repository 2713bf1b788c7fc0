-- ===== src/Tftp/Service.antt =====
-- A device that was offered a boot file gets its configuration from the TFTP server.
use mydhcp.Common.{
  ℕ, ◌/◌, ◌%◌, ◌<◌, ◌≡◌, refl, ap, ◌∙◌, List, [], ◌∷◌, ◌++◌, Option, some, nat_eq, false, ◌==◌,
  length, arith, ok,
}
use mydhcp.Common.Maps.{lookup}
use mydhcp.Net.{Ip}
use mydhcp.Subnet.{Manager}
use mydhcp.Dhcp.Options.{opt_bootfile}
use mydhcp.Dhcp.Packet.{Packet, at, uint16_at}
use mydhcp.Dhcp.Reply.{inject_ztp_options}
use mydhcp.Text.{hex_digit, hex}
use mydhcp.Text.Injective.{AreBytes}
use mydhcp.Ztp.Defs.{Device, Profile, Ztp}
use mydhcp.Ztp.Ops.{lookup_for_tftp}
use mydhcp.Ztp.Render.{Template, device_config}
use mydhcp.Tftp.{cfg_suffix, parse_mac_from_filename, split_name, handle_rrq, handle_tftp_request}
use mydhcp.Tftp.Filename.{inject_ztp_options_bootfile, parse_mac_from_filename_plain}

append_assoc {ℓ} : {A : Type ℓ} (xs ys zs : List A) → (xs ++ ys) ++ zs ≡ xs ++ (ys ++ zs)
append_assoc [] ys zs = refl
append_assoc (x ∷ xs) ys zs = ap (◌∷◌ x) (append_assoc xs ys zs)

split_name_suffix : (mode : List ℕ) → split_name (cfg_suffix ++ 0 ∷ mode) ≡ some cfg_suffix
unfolding split_name
split_name_suffix mode = refl

hex_digit_not_zero : (n : ℕ) → n < 16 → (hex_digit n == 0) ≡ false
unfolding hex_digit
hex_digit_not_zero n h = ground arith

-- The name of a request ends in front of the zero byte.
split_name-hex :
    (mac tail name : List ℕ)
    → AreBytes mac
    → split_name tail ≡ some name
    → split_name (hex mac ++ tail) ≡ some (hex mac ++ name)
unfolding split_name hex
split_name-hex [] tail name p h = h
split_name-hex (b ∷ bs) tail name (small, p) h =
    rw
      (
        hex_digit_not_zero (b / 16) (omega arith),
        hex_digit_not_zero (b % 16) (omega arith),
        split_name-hex bs tail name p h,
      )
      refl

handle_rrq_of :
    (template : Template) (z : Ztp) (m : Manager) (bytes filename mac content : List ℕ) (d : Device)
    (p : Profile)
    → split_name bytes ≡ some filename
    → parse_mac_from_filename filename ≡ some mac
    → lookup_for_tftp z mac ≡ ok (d, p)
    → device_config template m d p ≡ some content
    → handle_rrq template z m bytes ≡ ok content
unfolding handle_rrq
handle_rrq_of template z m bytes filename mac content d p h k l r = ground (arith, h, k, l, r)

-- A datagram with the opcode of a read request.
handle_tftp_request_read :
    (template : Template) (z : Ztp) (m : Manager) (bytes : List ℕ)
    → handle_tftp_request template z m (0 ∷ 1 ∷ bytes) ≡ some (handle_rrq template z m bytes)
unfolding handle_tftp_request uint16_at at
handle_tftp_request_read template z m bytes = ground arith

-- Let a device with a hardware address of six bytes be recorded with a static address and a
-- profile whose template renders. Then the boot file that the DHCP server's reply names for its
-- address is a file for which a read request to the TFTP server, with anything behind the name, is
-- answered with the rendered configuration.
pub inject_ztp_options-handle_tftp_request :
    (template : Template) (z : Ztp) (m : Manager) (pkt : Packet) (server_ip : Option Ip)
    (offered : Profile) (mac mode content : List ℕ) (d : Device) (p : Profile)
    → AreBytes mac
    → length mac ≡ 6
    → lookup_for_tftp z mac ≡ ok (d, p)
    → device_config template m d p ≡ some content
    → (file : List ℕ) × (lookup opt_bootfile
          (inject_ztp_options pkt server_ip mac (some offered)).options
        ≡ some file)
      × (handle_tftp_request template z m (0 ∷ 1 ∷ (file ++ 0 ∷ mode)) ≡ some (ok content))
inject_ztp_options-handle_tftp_request template z m pkt server_ip offered mac mode content d p small
      six found rendered =
    (
      hex mac ++ cfg_suffix,
      inject_ztp_options_bootfile pkt server_ip mac offered,
      handle_tftp_request_read template z m ((hex mac ++ cfg_suffix) ++ 0 ∷ mode)
          ∙ ap some (
              handle_rrq_of template z m ((hex mac ++ cfg_suffix) ++ 0 ∷ mode)
                (hex mac ++ cfg_suffix) mac content d p
                (ap split_name (append_assoc (hex mac) cfg_suffix (0 ∷ mode))
                  ∙ split_name-hex mac (cfg_suffix ++ 0 ∷ mode) cfg_suffix small
                      (split_name_suffix mode))
                (parse_mac_from_filename_plain mac small six) found rendered),
    )
