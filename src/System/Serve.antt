-- ===== src/System/Serve.antt =====
-- The server from its configuration file on: what serve boots is what the start is of the
-- configuration that the file decodes to.
use mydhcp.Common.{
  ℕ, ◌≡◌, ap, sym, ◌∙◌, List, [], Option, some, Bool, arith, ok, Option-cases, Result-cases, inl,
  inr,
}
use mydhcp.Config.{SubnetConfig, validate}
use mydhcp.Config.Load.{FileConfig, load, load-IsLoaded, IsLoaded}
use mydhcp.Subnet.{Manager}
use mydhcp.Subnet.Sound.{IsSound}
use mydhcp.Ztp.Render.{Template}
use mydhcp.Api.Parse.{Parsers}
use mydhcp.Api.Sound.{IsParser}
use mydhcp.System.{load_subnets, with_address, new_ztp, start, Running, launch, Reach}
use mydhcp.System.Sound.{start-Reach-IsSound}
use mydhcp.System.Boot.{Environment, Booted, boot, boot_parts, boot_parts-with_address}

start_parts :
    (p : Parsers) (fuel : ℕ) (server_ip : List ℕ) (scs : List SubnetConfig) (enabled : Bool)
    (m : Manager)
    → (validate server_ip scs).1 ≡ ok tt
    → load_subnets p fuel [] (validate server_ip scs).0 ≡ some (ok m)
    → start p fuel server_ip scs enabled
      ≡ some (with_address p server_ip (record { subnets = m; ztp = new_ztp enabled }))
unfolding start
start_parts p fuel server_ip scs enabled m passes loaded = ground (arith, passes, loaded)

-- The configuration, the subnets and the parts that a boot goes through.
boot_stages :
    (p : Parsers) (env : Environment) (fuel : ℕ) (path : List ℕ) (listen : Option (List ℕ))
    (b : Booted)
    → boot p env fuel path listen ≡ some (ok b)
    → (cfg : FileConfig) × (m : Manager) × (load env.files path ≡ ok cfg)
      × (load_subnets p fuel [] cfg.subnets ≡ some (ok m))
      × (boot_parts p env cfg listen m ≡ ok b)
unfolding boot
boot_stages p env fuel path listen b h = elim (Result-cases (load env.files path)) [
  | inr (e, f) ↦ absurd (ground (arith, f, h))
  | inl (cfg, f) ↦ elim (Option-cases (load_subnets p fuel [] cfg.subnets)) [
    | inl g ↦ absurd (ground (arith, f, g, h))
    | inr (out, g) ↦ elim (Result-cases out) [
      | inr (e, k) ↦ absurd (ground (arith, f, g, k, h))
      | inl (m, k) ↦ (cfg, m, f, g ∙ ap some k, ground (arith, f, g, k, h))
    ]
  ]
]

-- What boots is the start of what the file decodes to.
pub boot-start :
    (p : Parsers) (env : Environment) (fuel : ℕ) (path : List ℕ) (listen : Option (List ℕ))
    (b : Booted)
    → boot p env fuel path listen ≡ some (ok b)
    → (cfg : FileConfig) × (l : IsLoaded env.files path cfg) × (start p fuel l.decoded.server_ip
          l.decoded.subnets l.decoded.ztp_enabled
        ≡ some (ok (b.program, b.server_ip)))
boot-start p env fuel path listen b h =
    let (cfg, m, loaded, grown, made) = boot_stages p env fuel path listen b h in
    let l = load-IsLoaded env.files path cfg loaded in
    let d = l.decoded in
    let same_subnets : cfg.subnets ≡ (validate d.server_ip d.subnets).0 =
      ap (λ (c : FileConfig). c.subnets) l.same in
    let started =
      start_parts p fuel d.server_ip d.subnets d.ztp_enabled m l.passes
        (ap (load_subnets p fuel []) (sym same_subnets) ∙ grown) in
    let parts =
      ap
        (λ (c : FileConfig).
          with_address p c.server_ip (record { subnets = m; ztp = new_ztp c.ztp_enabled }))
        (sym l.same) in
    (cfg, l, started ∙ ap some (parts ∙ boot_parts-with_address p env cfg listen m b made))

-- Let the parsers give prefixes of at most 32 bits and addresses of four bytes. If serve boots
-- from a configuration file, with its plugins and with a dashboard or without, then after any
-- number of datagrams, starts and sweeps of reapers, requests to the API and single calls of
-- handlers on a store, in any order, the networks of its subnets do not overlap and each subnet's
-- store is well-formed.
pub boot-Reach-IsSound :
    (p : Parsers) (env : Environment) (template : Template) (fuel : ℕ) (path : List ℕ)
    (listen : Option (List ℕ)) (b : Booted) (s : Running)
    → IsParser p
    → boot p env fuel path listen ≡ some (ok b)
    → Reach p template fuel b.server_ip (launch b.program) s
    → IsSound s.program.subnets
boot-Reach-IsSound p env template fuel path listen b s laws h reach =
    let (cfg, l, started) = boot-start p env fuel path listen b h in
    let d = l.decoded in
    start-Reach-IsSound p template fuel d.server_ip d.subnets d.ztp_enabled laws started reach
