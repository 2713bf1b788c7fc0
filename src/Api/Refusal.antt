-- ===== src/Api/Refusal.antt =====
-- A request that the API refuses changes nothing.
use mydhcp.Common.{
  ℕ, ◌≤◌, ◌≡◌, refl, List, [], Option, some, none, arith, Option-cases, Result-cases, inl, inr, err,
  ◌=?◌, text_eq,
}
use mydhcp.Store.Sweep.{new_memory_store}
use mydhcp.Common.Maps.{lookup}
use mydhcp.Subnet.{Error as SubnetError, Manager, add, remove, Config}
use mydhcp.Ztp.Defs.{Device, Profile}
use mydhcp.Ztp.Ops.{Error, check_profile, add_checked, delete_found}
use mydhcp.Ztp.Ops as Ops
use mydhcp.Api.Parse.{Parsers, SubnetRequest, parse_subnet_config}
use mydhcp.Api.Answer.{Program, Response, answers, panics}
use mydhcp.Api.Subnets.{add_subnet, delete_subnet}
use mydhcp.Api.Devices.{
  DeviceRequest, parse_static_ip, register, unregister, add_device, delete_device, add_profile,
  delete_profile,
}
use mydhcp.Ztp.Render.{Template}
use mydhcp.Api.Routes.{
  Request, get_subnets, post_subnet, delete_subnet_named, get_leases, get_devices, post_device,
  get_device_of, delete_device_of, get_profiles, post_profile, get_profile_named,
  delete_profile_named, get_config_of, serve_request,
}
use mydhcp.Ztp.Failure.{add_device_keeps, delete_device_keeps}

-- An error status, or no answer.
abbrev pub IsRefusal : Response → Type 0
IsRefusal (answers status body) = 400 ≤ status
IsRefusal panics = Unit {0}

register_keeps : (st : Program) (d : Device) → IsRefusal (register st d).1 → (register st d).0 ≡ st
unfolding register
register_keeps st d h = elim (Option-cases st.ztp) [
  | inl e ↦ ground (arith, e)
  | inr (z, e) ↦ elim (Result-cases (Ops.add_device z st.subnets d).1) [
    | inl (u, f) ↦ absurd (ground (arith, e, f, h))
    | inr (x, f) ↦ let kept = add_device_keeps z st.subnets d x f in ground (arith, e, f, kept)
  ]
]

unregister_keeps :
    (st : Program) (mac : List ℕ) → IsRefusal (unregister st mac).1 → (unregister st mac).0 ≡ st
unfolding unregister
unregister_keeps st mac h = elim (Option-cases st.ztp) [
  | inl e ↦ ground (arith, e)
  | inr (z, e) ↦ elim (Result-cases (Ops.delete_device z st.subnets mac).1) [
    | inl (u, f) ↦ absurd (ground (arith, e, f, h))
    | inr (x, f) ↦ let kept = delete_device_keeps z st.subnets mac x f in ground (arith, e, f, kept)
  ]
]

add_device_refused :
    (p : Parsers) (st : Program) (body : Option DeviceRequest)
    → IsRefusal (add_device p st body).1
    → (add_device p st body).0 ≡ st
unfolding add_device
add_device_refused p st none h = refl
add_device_refused p st (some req) h = elim (Option-cases (p.mac req.mac)) [
  | inl e ↦ ground (arith, e)
  | inr (mac, e) ↦ elim (Option-cases (parse_static_ip p req.static_ip)) [
    | inl f ↦ ground (arith, e, f)
    | inr (ip, f) ↦
        let d : Device = record {
          mac = mac;
          vendor_profile = req.vendor_profile;
          static_ip = ip;
          hostname = req.hostname;
          vars = req.vars;
        } in
        ground (arith, e, f, h, register_keeps st d)
  ]
]

delete_device_refused :
    (p : Parsers) (st : Program) (text : List ℕ)
    → IsRefusal (delete_device p st text).1
    → (delete_device p st text).0 ≡ st
unfolding delete_device
delete_device_refused p st text h = elim (Option-cases (p.mac text)) [
  | inl e ↦ ground (arith, e)
  | inr (mac, e) ↦ ground (arith, e, h, unregister_keeps st mac)
]

add_profile_refused :
    (st : Program) (body : Option Profile)
    → IsRefusal (add_profile st body).1
    → (add_profile st body).0 ≡ st
unfolding add_profile
add_profile_refused st none h = refl
add_profile_refused st (some q) h = elim (q.name =? []) [
  | yes e ↦ ground (arith, e)
  | no e ↦ ground (arith, e, h)
]

delete_profile_refused :
    (st : Program) (name : List ℕ)
    → IsRefusal (delete_profile st name).1
    → (delete_profile st name).0 ≡ st
unfolding delete_profile Ops.delete_profile
delete_profile_refused st name h = elim (Option-cases st.ztp) [
  | inl e ↦ ground (arith, e)
  | inr (z, e) ↦ ground (arith, e, h)
]

delete_subnet_refused :
    (st : Program) (name : List ℕ)
    → IsRefusal (delete_subnet st name).1
    → (delete_subnet st name).0 ≡ st
unfolding delete_subnet remove
delete_subnet_refused st name h = ground (arith, h)

-- An Add that fails leaves the subnets as they were.
add_keeps :
    (fuel : ℕ) (m : Manager) (cfg : Config) (x : SubnetError) (m' : Manager)
    → add fuel m cfg ≡ some (m', err x)
    → m' ≡ m
unfolding add
add_keeps fuel m cfg x m' h =
    elim (Option-cases (
      new_memory_store fuel cfg.range_start cfg.range_end cfg.lease_time cfg.offer_timeout
        cfg.decline_cooldown)) [
          | inl e ↦ ground (arith, e)
          | inr (s, e) ↦ elim (Option-cases (lookup cfg.name m)) [
            | inl new ↦ ground (arith, e, new)
            | inr (old, f) ↦ ground (arith, e, f)
          ]
        ]

add_subnet_refused :
    (p : Parsers) (fuel : ℕ) (st : Program) (body : Option SubnetRequest) {st' : Program}
    {r : Response}
    → add_subnet p fuel st body ≡ some (st', r)
    → IsRefusal r
    → st' ≡ st
unfolding add_subnet
add_subnet_refused p fuel st none e h = ground arith
add_subnet_refused p fuel st (some req) e h = elim (Result-cases (parse_subnet_config p req)) [
  | inr (x, f) ↦ ground (arith, f)
  | inl (cfg, f) ↦ elim (Option-cases (add fuel st.subnets cfg)) [
    | inl g ↦ absurd (ground (arith, f, g, e))
    | inr ((m, out), g) ↦ elim (Result-cases out) [
      | inl (u, k) ↦ absurd (ground (arith, f, g, k, e, h))
      | inr (x, k) ↦ ground (arith, f, g, k, e, add_keeps fuel st.subnets cfg x m)
    ]
  ]
]

-- A request to the API that is answered with a status of 400 or more, or that is not answered
-- since the handler dereferences nil, leaves the subnets, their leases, the devices and the
-- profiles as they were.
pub serve_request_refused :
    (p : Parsers) (template : Template) (fuel : ℕ) (st : Program) (req : Request) {st' : Program}
    {r : Response}
    → serve_request p template fuel st req ≡ some (st', r)
    → IsRefusal r
    → st' ≡ st
unfolding serve_request
serve_request_refused p template fuel st get_subnets e h = ground arith
serve_request_refused p template fuel st (post_subnet body) e h =
    add_subnet_refused p fuel st body e h
serve_request_refused p template fuel st (delete_subnet_named name) e h =
    ground (arith, e, h, delete_subnet_refused st name)
serve_request_refused p template fuel st (get_leases filter) e h = ground arith
serve_request_refused p template fuel st get_devices e h = ground arith
serve_request_refused p template fuel st (post_device body) e h =
    ground (arith, e, h, add_device_refused p st body)
serve_request_refused p template fuel st (get_device_of mac) e h = ground arith
serve_request_refused p template fuel st (delete_device_of mac) e h =
    ground (arith, e, h, delete_device_refused p st mac)
serve_request_refused p template fuel st get_profiles e h = ground arith
serve_request_refused p template fuel st (post_profile body) e h =
    ground (arith, e, h, add_profile_refused st body)
serve_request_refused p template fuel st (get_profile_named name) e h = ground arith
serve_request_refused p template fuel st (delete_profile_named name) e h =
    ground (arith, e, h, delete_profile_refused st name)
serve_request_refused p template fuel st (get_config_of mac) e h = ground arith
