-- ===== src/Tests/Transfers.antt =====
-- The theorems on TFTP at work.
use mydhcp.Common.{
  ℕ, ◌+◌, ◌/◌, ◌≤◌, ◌≡◌, refl, List, [], ◌∷◌, ◌++◌, Option, some, none, arith, length, nat_eq,
  text_eq, Result, ok, replicate, Text-discrete, ℕ_discrete,
}
use mydhcp.Common.Maps.{lookup}
use mydhcp.Dhcp.Options.{opt_bootfile}
use mydhcp.Dhcp.Reply.{inject_ztp_options}
use mydhcp.Ztp.Defs.{Device, Profile, Ztp, put_device, add_profile, get_device, get_profile}
use mydhcp.Ztp.Ops.{lookup_for_tftp}
use mydhcp.Ztp.Render.{TemplateData, Template, device_config}
use mydhcp.Tftp.{completed, stream_data, handle_tftp_request}
use mydhcp.Tftp.Transfer.{receive, stream_data-receive}
use mydhcp.Tftp.Bounds.{AreShort, stream_data_bounds}
use mydhcp.Tftp.Completion.{acks, stream_data-acks}
use mydhcp.Tftp.Service.{inject_ztp_options-handle_tftp_request}
use mydhcp.Tftp.Buffer.{serve_tftp, in_turn, overtaken, serve_tftp-overtaken}
use mydhcp.Tests.Data.{host, alice_mac}
use mydhcp.Tests.Nets.{subnets, discover}

abbrev text : List ℕ
text = replicate 512 7 ++ 1 ∷ 2 ∷ []

transferred : (stream_data text (acks 1 2)).1 ≡ completed
unfolding stream_data mydhcp.Tftp.stream_from acks mydhcp.Dhcp.Packet.uint16_at
    mydhcp.Dhcp.Packet.at mydhcp.Dhcp.Packet.put_uint16 mydhcp.Tftp.ack_buffer
transferred = refl

stream_data-receive_example : receive 1 (stream_data text (acks 1 2)).0 ≡ some text
stream_data-receive_example = stream_data-receive text (acks 1 2) transferred

stream_data_bounds_example :
    AreShort (stream_data text (acks 1 2)).0
    × (length (stream_data text (acks 1 2)).0 ≤ length text / 512 + 1)
    × (length (stream_data text (acks 1 2)).0 ≤ length (acks 1 2))
stream_data_bounds_example = stream_data_bounds text (acks 1 2)

stream_data-acks_example :
    ((stream_data text (acks 1 (length text / 512 + 1))).1 ≡ completed)
    × (length (stream_data text (acks 1 (length text / 512 + 1))).0 ≡ length text / 512 + 1)
stream_data-acks_example = stream_data-acks text

-- A template that writes the host's name.
abbrev named : Template
named source d = some (source ++ d.hostname)

abbrev switch : Profile
switch = record { name = 115 ∷ []; match_option60 = []; config_template = 104 ∷ [] }

abbrev device : Device
device = record {
  mac = alice_mac;
  vendor_profile = 115 ∷ [];
  static_ip = some (host 7);
  hostname = 120 ∷ [];
  vars = [];
}

abbrev records : Ztp
records = add_profile (put_device (record { devices = []; profiles = [] }) device) switch

registered : lookup_for_tftp records alice_mac ≡ ok (device, switch)
unfolding lookup_for_tftp add_profile put_device get_device get_profile lookup Text-discrete
    mydhcp.Common.Maps.insert mydhcp.Ztp.Defs.mac_key
registered = refl

config_rendered : device_config named subnets device switch ≡ some (104 ∷ 120 ∷ [])
unfolding device_config mydhcp.Ztp.Render.render_config mydhcp.Ztp.Render.template_data
    mydhcp.Ztp.Render.net_of
config_rendered = ground arith

inject_ztp_options-handle_tftp_request_example :
    (file : List ℕ) × (lookup opt_bootfile
        (inject_ztp_options discover (some (host 1)) alice_mac (some switch)).options
      ≡ some file)
    × (handle_tftp_request named records subnets (0 ∷ 1 ∷ (file ++ 0 ∷ 111 ∷ 0 ∷ []))
        ≡ some (ok (104 ∷ 120 ∷ [])))
inject_ztp_options-handle_tftp_request_example =
    inject_ztp_options-handle_tftp_request named records subnets discover (some (host 1)) switch
      alice_mac (111 ∷ 0 ∷ []) (104 ∷ 120 ∷ []) device switch (ground arith) refl registered
      config_rendered

serve_tftp-overtaken_example :
    serve_tftp
      (record { buffer = replicate 65536 0; pending = [] })
      (in_turn ((9, 4 ∷ []) ∷ []) ++ overtaken (1 ∷ 2 ∷ []) (3 ∷ 5 ∷ 6 ∷ []) 7 8)
    ≡ (9, 4 ∷ []) ∷ (7, 3 ∷ 5 ∷ []) ∷ (8, 3 ∷ 5 ∷ 6 ∷ []) ∷ []
serve_tftp-overtaken_example =
    serve_tftp-overtaken ((9, 4 ∷ []) ∷ []) (replicate 65536 0) (1 ∷ 2 ∷ []) (3 ∷ 5 ∷ 6 ∷ []) 7 8
      (ground arith)
