-- ===== src/Api/Devices.antt =====
-- The endpoints for devices, vendor profiles and rendered configurations of
-- internal/api/handlers.go. Each call on the manager of devices goes through a nil pointer where
-- ZTP is disabled.
use mydhcp.Common.{ℕ, List, [], Option, some, none, ite, ◌=?◌, text_eq, ok, err, map}
use mydhcp.Net.{Ip}
use mydhcp.Store.Defs.{already_reserved}
use mydhcp.Ztp.Defs.{
  stored_devices, stored_profiles, Device, Profile, Ztp, get_device, get_profile,
  add_profile as put_profile,
}
use mydhcp.Ztp.Ops.{
  Error, no_subnet, reserve_failed, device_not_found, profile_not_found, lookup_for_tftp,
  add_device as register_device, delete_device as remove_device, delete_profile as remove_profile,
}
use mydhcp.Ztp.Render.{Template, device_config}
use mydhcp.Api.Parse.{Parsers}
use mydhcp.Api.Answer.{Program, Response, Body, answers, panics, write_error, device_to_response}

pub record DeviceRequest : Type 0 where
  pub mac : List ℕ
  pub vendor_profile : List ℕ
  pub static_ip : List ℕ
  pub hostname : List ℕ
  pub vars : List ℕ

unfoldable pub list_devices : Program → Response
list_devices st = elim st.ztp [
  | none ↦ panics
  | some z ↦ answers 200 (Body.devices (map device_to_response (stored_devices z)))
]

-- The status for an error of AddDevice.
unfoldable pub add_device_status : Error → ℕ
add_device_status no_subnet = 422
add_device_status (reserve_failed already_reserved) = 409
add_device_status e = 500

-- The part of addDevice after the request is read.
unfoldable pub register : Program → Device → Program × Response
unfolding add_device_status
register st d = elim st.ztp [
  | none ↦ (st, panics)
  | some z ↦
      let ((z', m), r) = register_device z st.subnets d in
      (
        record { subnets = m; ztp = some z' },
        elim r [
          | ok u ↦ answers 201 (Body.device (device_to_response d))
          | err e ↦ write_error (add_device_status e)
        ],
      )
]

-- The static address: the outer `none` is a text that is no address.
unfoldable pub parse_static_ip : Parsers → List ℕ → Option (Option Ip)
parse_static_ip p text = ite (text =? []) (some none) (p.ip text)

-- addDevice; `none` for a body that does not decode.
unfoldable pub add_device : Parsers → Program → Option DeviceRequest → Program × Response
unfolding register parse_static_ip
add_device p st none = (st, write_error 400)
add_device p st (some req) = elim (p.mac req.mac) [
  | none ↦ (st, write_error 422)
  | some mac ↦ elim (parse_static_ip p req.static_ip) [
    | none ↦ (st, write_error 422)
    | some ip ↦ register st (record {
      mac = mac;
      vendor_profile = req.vendor_profile;
      static_ip = ip;
      hostname = req.hostname;
      vars = req.vars;
    })
  ]
]

unfoldable pub found_device : Option Device → Response
found_device none = write_error 404
found_device (some d) = answers 200 (Body.device (device_to_response d))

unfoldable pub show_device : Parsers → Program → List ℕ → Response
unfolding found_device
show_device p st text = elim (p.mac text) [
  | none ↦ write_error 400
  | some mac ↦ elim st.ztp [ none ↦ panics | some z ↦ found_device (get_device z mac) ]
]

unfoldable pub delete_device_status : Error → ℕ
delete_device_status device_not_found = 404
delete_device_status e = 500

-- The part of deleteDevice after the address is read.
unfoldable pub unregister : Program → List ℕ → Program × Response
unfolding delete_device_status
unregister st mac = elim st.ztp [
  | none ↦ (st, panics)
  | some z ↦
      let ((z', m), r) = remove_device z st.subnets mac in
      (
        record { subnets = m; ztp = some z' },
        elim r [ ok u ↦ answers 204 Body.empty | err e ↦ write_error (delete_device_status e) ],
      )
]

unfoldable pub delete_device : Parsers → Program → List ℕ → Program × Response
unfolding unregister
delete_device p st text = elim (p.mac text) [
  | none ↦ (st, write_error 400)
  | some mac ↦ unregister st mac
]

unfoldable pub list_profiles : Program → Response
list_profiles st = elim st.ztp [
  | none ↦ panics
  | some z ↦ answers 200 (Body.profiles (stored_profiles z))
]

-- addProfile; the store of profiles accepts every profile.
unfoldable pub add_profile : Program → Option Profile → Program × Response
add_profile st none = (st, write_error 400)
add_profile st (some q) =
    ite (q.name =? []) (st, write_error 422)
      (elim st.ztp [
        | none ↦ (st, panics)
        | some z ↦ (record st { ztp = some (put_profile z q) }, answers 201 (Body.profile q))
      ])

unfoldable pub found_profile : Option Profile → Response
found_profile none = write_error 404
found_profile (some q) = answers 200 (Body.profile q)

unfoldable pub show_profile : Program → List ℕ → Response
unfolding found_profile
show_profile st name = elim st.ztp [ none ↦ panics | some z ↦ found_profile (get_profile z name) ]

unfoldable pub delete_profile_status : Error → ℕ
delete_profile_status profile_not_found = 404
delete_profile_status e = 500

unfoldable pub delete_profile : Program → List ℕ → Program × Response
unfolding delete_profile_status
delete_profile st name = elim st.ztp [
  | none ↦ (st, panics)
  | some z ↦
      let (z', r) = remove_profile z name in
      (
        record st { ztp = some z' },
        elim r [
          | ok affected ↦ answers 200 (Body.deleted name affected)
          | err e ↦ write_error (delete_profile_status e)
        ],
      )
]

-- The part of getConfig after the address is read.
unfoldable pub rendered : Template → Program → Ztp → List ℕ → Response
rendered template st z mac = elim (lookup_for_tftp z mac) [
  | err e ↦ write_error 404
  | ok (d, q) ↦ elim (device_config template st.subnets d q) [
    | none ↦ write_error 500
    | some text ↦ answers 200 (Body.content text)
  ]
]

unfoldable pub show_config : Parsers → Template → Program → List ℕ → Response
unfolding rendered
show_config p template st text = elim (p.mac text) [
  | none ↦ write_error 400
  | some mac ↦ elim st.ztp [ none ↦ panics | some z ↦ rendered template st z mac ]
]
