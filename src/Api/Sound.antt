-- ===== src/Api/Sound.antt =====
-- The API keeps the subnets well-formed, whatever it is asked.
use mydhcp.Common.{
  ℕ, ◌≤◌, ◌≡◌, List, Option, some, none, arith, refl, Option-cases, Result-cases, inl, inr, ok,
  text_eq,
}
use mydhcp.Config.{SubnetConfig}
use mydhcp.Net.{Ip}
use mydhcp.Net.Cidr.{IpNet}
use mydhcp.Store.Invariant.Start.{IsIpOrNil}
use mydhcp.Subnet.{Config, add}
use mydhcp.Subnet.Sound.{IsSound, add-IsSound, remove-IsSound}
use mydhcp.Ztp.Defs.{Device, Profile}
use mydhcp.Ztp.Render.{Template}
use mydhcp.Ztp.Sound.{add_device-IsSound, delete_device-IsSound}
use mydhcp.Api.Parse.{Parsers, SubnetRequest, parse_subnet_config, config_to_subnet}
use mydhcp.Api.Answer.{Program, Response}
use mydhcp.Api.Subnets.{add_subnet, delete_subnet}
use mydhcp.Api.Devices.{
  DeviceRequest, parse_static_ip, register, unregister, add_device, delete_device, add_profile,
  delete_profile,
}
use mydhcp.Api.Routes.{
  Request, get_subnets, post_subnet, delete_subnet_named, get_leases, get_devices, post_device,
  get_device_of, delete_device_of, get_profiles, post_profile, get_profile_named,
  delete_profile_named, get_config_of, serve_request,
}

-- What net documents of its parsers: a prefix has at most 32 bits, and an address has four bytes.
pub record IsParser (p : Parsers) : Type 0 where
  pub short : (text : List ℕ) (n : IpNet) → p.cidr text ≡ some n → n.ones ≤ 32
  pub bytes : (text : List ℕ) (a : Option Ip) → p.ip text ≡ some a → IsIpOrNil a

-- A configuration that a front end makes of texts.
pub record IsParsed (cfg : Config) : Type 0 where
  pub short : cfg.network.ones ≤ 32
  pub first : IsIpOrNil cfg.range_start
  pub last : IsIpOrNil cfg.range_end

register-IsSound :
    (st : Program) (d : Device) → IsSound st.subnets → IsSound (register st d).0.subnets
unfolding register
register-IsSound st d sound = elim (Option-cases st.ztp) [
  | inl e ↦ ground (arith, e, sound)
  | inr (z, e) ↦ ground (arith, e, add_device-IsSound z st.subnets d sound)
]

unregister-IsSound :
    (st : Program) (mac : List ℕ) → IsSound st.subnets → IsSound (unregister st mac).0.subnets
unfolding unregister
unregister-IsSound st mac sound = elim (Option-cases st.ztp) [
  | inl e ↦ ground (arith, e, sound)
  | inr (z, e) ↦ ground (arith, e, delete_device-IsSound z st.subnets mac sound)
]

api_add_device-IsSound :
    (p : Parsers) (st : Program) (body : Option DeviceRequest)
    → IsSound st.subnets
    → IsSound (add_device p st body).0.subnets
unfolding add_device
api_add_device-IsSound p st none sound = sound
api_add_device-IsSound p st (some req) sound = elim (Option-cases (p.mac req.mac)) [
  | inl e ↦ ground (arith, e, sound)
  | inr (mac, e) ↦ elim (Option-cases (parse_static_ip p req.static_ip)) [
    | inl f ↦ ground (arith, e, f, sound)
    | inr (ip, f) ↦
        let d : Device = record {
          mac = mac;
          vendor_profile = req.vendor_profile;
          static_ip = ip;
          hostname = req.hostname;
          vars = req.vars;
        } in
        ground (arith, e, f, register-IsSound st d sound)
  ]
]

api_delete_device-IsSound :
    (p : Parsers) (st : Program) (text : List ℕ)
    → IsSound st.subnets
    → IsSound (delete_device p st text).0.subnets
unfolding delete_device
api_delete_device-IsSound p st text sound = elim (Option-cases (p.mac text)) [
  | inl e ↦ ground (arith, e, sound)
  | inr (mac, e) ↦ ground (arith, e, unregister-IsSound st mac sound)
]

add_profile_same :
    (st : Program) (body : Option Profile) → (add_profile st body).0.subnets ≡ st.subnets
unfolding add_profile
add_profile_same st none = refl
add_profile_same st (some q) = ground arith

delete_profile_same :
    (st : Program) (name : List ℕ) → (delete_profile st name).0.subnets ≡ st.subnets
unfolding delete_profile
delete_profile_same st name = ground arith

delete_subnet-IsSound :
    (st : Program) (name : List ℕ) → IsSound st.subnets → IsSound (delete_subnet st name).0.subnets
unfolding delete_subnet
delete_subnet-IsSound st name sound = ground (arith, sound, remove-IsSound st.subnets name sound)

pub parsed_addresses :
    (p : Parsers) (req : SubnetRequest) (cfg : Config)
    → parse_subnet_config p req ≡ ok cfg
    → (p.cidr req.network ≡ some cfg.network)
      × (p.ip req.range_start ≡ some cfg.range_start)
      × (p.ip req.range_end ≡ some cfg.range_end)
unfolding parse_subnet_config
parsed_addresses p req cfg h = (ground arith, ground arith, ground arith)

-- A configuration that parseSubnetConfig accepts.
parse_subnet_config-IsParsed :
    (p : Parsers) (req : SubnetRequest) (cfg : Config)
    → IsParser p
    → parse_subnet_config p req ≡ ok cfg
    → IsParsed cfg
parse_subnet_config-IsParsed p req cfg laws h =
    let (network, first, last) = parsed_addresses p req cfg h in
    record {
      short = laws.short req.network cfg.network network;
      first = laws.bytes req.range_start cfg.range_start first;
      last = laws.bytes req.range_end cfg.range_end last;
    }

pub config_addresses :
    (p : Parsers) (sc : SubnetConfig) (cfg : Config)
    → config_to_subnet p sc ≡ ok cfg
    → (p.cidr sc.network ≡ some cfg.network)
      × (p.ip sc.range_start ≡ some cfg.range_start)
      × (p.ip sc.range_end ≡ some cfg.range_end)
unfolding config_to_subnet
config_addresses p sc cfg h = (ground arith, ground arith, ground arith)

-- A configuration that configToSubnet accepts.
pub config_to_subnet-IsParsed :
    (p : Parsers) (sc : SubnetConfig) (cfg : Config)
    → IsParser p
    → config_to_subnet p sc ≡ ok cfg
    → IsParsed cfg
config_to_subnet-IsParsed p sc cfg laws h =
    let (network, first, last) = config_addresses p sc cfg h in
    record {
      short = laws.short sc.network cfg.network network;
      first = laws.bytes sc.range_start cfg.range_start first;
      last = laws.bytes sc.range_end cfg.range_end last;
    }

add_subnet-IsSound :
    (p : Parsers) (fuel : ℕ) (st : Program) (body : Option SubnetRequest) {st' : Program}
    {r : Response}
    → IsParser p
    → IsSound st.subnets
    → add_subnet p fuel st body ≡ some (st', r)
    → IsSound st'.subnets
unfolding add_subnet
add_subnet-IsSound p fuel st none laws sound e = ground (arith, sound)
add_subnet-IsSound p fuel st (some req) laws sound e =
    elim (Result-cases (parse_subnet_config p req)) [
      | inr (x, f) ↦ ground (arith, f, sound)
      | inl (cfg, f) ↦ elim (Option-cases (add fuel st.subnets cfg)) [
        | inl g ↦ absurd (ground (arith, f, g, e))
        | inr ((m, out), g) ↦
            let parsed = parse_subnet_config-IsParsed p req cfg laws f in
            let kept =
              add-IsSound fuel st.subnets cfg parsed.short parsed.first parsed.last sound g in
            ground (arith, f, g, e, kept)
      ]
    ]

-- Where the parsers keep to what net documents, the subnets are apart and their stores well-formed
-- behind every request, whatever it asks and whatever comes of it, if they were so before.
pub serve_request-IsSound :
    (p : Parsers) (template : Template) (fuel : ℕ) (st : Program) (req : Request) {st' : Program}
    {r : Response}
    → IsParser p
    → IsSound st.subnets
    → serve_request p template fuel st req ≡ some (st', r)
    → IsSound st'.subnets
unfolding serve_request
serve_request-IsSound p template fuel st get_subnets laws sound e = ground (arith, sound)
serve_request-IsSound p template fuel st (post_subnet body) laws sound e =
    add_subnet-IsSound p fuel st body laws sound e
serve_request-IsSound p template fuel st (delete_subnet_named name) laws sound e =
    ground (arith, e, delete_subnet-IsSound st name sound)
serve_request-IsSound p template fuel st (get_leases filter) laws sound e = ground (arith, sound)
serve_request-IsSound p template fuel st get_devices laws sound e = ground (arith, sound)
serve_request-IsSound p template fuel st (post_device body) laws sound e =
    ground (arith, e, api_add_device-IsSound p st body sound)
serve_request-IsSound p template fuel st (get_device_of mac) laws sound e = ground (arith, sound)
serve_request-IsSound p template fuel st (delete_device_of mac) laws sound e =
    ground (arith, e, api_delete_device-IsSound p st mac sound)
serve_request-IsSound p template fuel st get_profiles laws sound e = ground (arith, sound)
serve_request-IsSound p template fuel st (post_profile body) laws sound e =
    ground (arith, e, sound, add_profile_same st body)
serve_request-IsSound p template fuel st (get_profile_named name) laws sound e =
    ground (arith, sound)
serve_request-IsSound p template fuel st (delete_profile_named name) laws sound e =
    ground (arith, e, sound, delete_profile_same st name)
serve_request-IsSound p template fuel st (get_config_of mac) laws sound e = ground (arith, sound)
