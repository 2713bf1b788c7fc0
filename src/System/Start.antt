-- ===== src/System/Start.antt =====
-- When the API's calls and the start come to an end: the one loop without a bound of its own is the
-- filling of a new subnet's pool.
use mydhcp.Common.{
  ℕ, ◌<◌, ◌≡◌, ◌≢◌, List, [], ◌∷◌, Option, some, none, arith, Option-cases, Result-cases, inl, inr,
  text_eq,
}
use mydhcp.Common.Maps.{lookup}
use mydhcp.Config.{SubnetConfig}
use mydhcp.Net.{Ip, ip_to_uint32}
use mydhcp.Store.Sweep.{new_memory_store}
use mydhcp.Store.Range.{fill-Fills}
use mydhcp.Subnet.{Config, Manager, add}
use mydhcp.Ztp.Render.{Template}
use mydhcp.Api.Parse.{Parsers, SubnetRequest, parse_subnet_config, config_to_subnet}
use mydhcp.Api.Answer.{Program}
use mydhcp.Api.Subnets.{add_subnet}
use mydhcp.Api.Sound.{parsed_addresses, config_addresses}
use mydhcp.Api.Routes.{
  Request, get_subnets, post_subnet, delete_subnet_named, get_leases, get_devices, post_device,
  get_device_of, delete_device_of, get_profiles, post_profile, get_profile_named,
  delete_profile_named, get_config_of, serve_request,
}
use mydhcp.System.{load_subnets}

-- The end of a range is nil or below 255.255.255.255.
abbrev pub IsBelowLast : Option Ip → Type 0
IsBelowLast none = Unit {0}
IsBelowLast (some a) = ip_to_uint32 a < 4294967295

new_memory_store_returns :
    (fuel : ℕ) (first last : Option Ip) (lease_time offer_ttl decline_ttl : ℕ)
    → 4294967296 < fuel
    → IsBelowLast last
    → new_memory_store fuel first last lease_time offer_ttl decline_ttl ≢ none
unfolding new_memory_store
new_memory_store_returns fuel none last lease_time offer_ttl decline_ttl enough below h =
    absurd (ground arith)
new_memory_store_returns fuel (some a) none lease_time offer_ttl decline_ttl enough below h =
    absurd (ground arith)
new_memory_store_returns fuel (some a) (some b) lease_time offer_ttl decline_ttl enough below h =
    let (ips, filled, f) = fill-Fills fuel (ip_to_uint32 a) (ip_to_uint32 b) below (omega arith) in
    absurd (ground (arith, filled, h))

add_returns :
    (fuel : ℕ) (m : Manager) (cfg : Config)
    → 4294967296 < fuel
    → IsBelowLast cfg.range_end
    → add fuel m cfg ≢ none
unfolding add
add_returns fuel m cfg enough below h =
    let made =
      new_memory_store_returns fuel cfg.range_start cfg.range_end cfg.lease_time cfg.offer_timeout
        cfg.decline_cooldown enough below in
    elim (Option-cases (
      new_memory_store fuel cfg.range_start cfg.range_end cfg.lease_time cfg.offer_timeout
        cfg.decline_cooldown)) [
          | inl e ↦ made e
          | inr (s, e) ↦ elim (Option-cases (lookup cfg.name m)) [
            | inr (old, held) ↦ absurd (ground (arith, h, held))
            | inl new ↦ absurd (ground (arith, h, new, e))
          ]
        ]

-- No range that the texts name ends in 255.255.255.255.
abbrev pub EndsBelowLast : Parsers → List ℕ → Type 0
EndsBelowLast p text = (a : Option Ip) → p.ip text ≡ some a → IsBelowLast a

-- What a request names as the end of a range, if it is one to add a subnet.
abbrev pub AsksBelowLast : Parsers → Request → Type 0
AsksBelowLast p (post_subnet (some req)) = EndsBelowLast p req.range_end
AsksBelowLast p other = Unit {0}

add_subnet_returns :
    (p : Parsers) (fuel : ℕ) (st : Program) (req : SubnetRequest)
    → 4294967296 < fuel
    → EndsBelowLast p req.range_end
    → add_subnet p fuel st (some req) ≢ none
unfolding add_subnet
add_subnet_returns p fuel st req enough below h = elim (Result-cases (parse_subnet_config p req)) [
  | inr (e, f) ↦ absurd (ground (arith, f, h))
  | inl (cfg, f) ↦
      let (network, first, last) = parsed_addresses p req cfg f in
      let returns = add_returns fuel st.subnets cfg enough (below cfg.range_end last) in
      elim (Option-cases (add fuel st.subnets cfg)) [
        | inl g ↦ returns g
        | inr (out, g) ↦ absurd (ground (arith, f, g, h))
      ]
]

-- With more fuel than there are addresses, every request to the API returns, but for one to add a
-- subnet whose range ends in 255.255.255.255.
pub serve_request_returns :
    (p : Parsers) (template : Template) (fuel : ℕ) (st : Program) (req : Request)
    → 4294967296 < fuel
    → AsksBelowLast p req
    → serve_request p template fuel st req ≢ none
unfolding serve_request
serve_request_returns p template fuel st (post_subnet (some body)) enough below h =
    add_subnet_returns p fuel st body enough below h
serve_request_returns p template fuel st (post_subnet none) enough below h =
    unfold add_subnet in absurd (ground arith)
serve_request_returns p template fuel st get_subnets enough below h = absurd (ground arith)
serve_request_returns p template fuel st (delete_subnet_named name) enough below h =
    absurd (ground arith)
serve_request_returns p template fuel st (get_leases filter) enough below h = absurd (ground arith)
serve_request_returns p template fuel st get_devices enough below h = absurd (ground arith)
serve_request_returns p template fuel st (post_device body) enough below h = absurd (ground arith)
serve_request_returns p template fuel st (get_device_of mac) enough below h = absurd (ground arith)
serve_request_returns p template fuel st (delete_device_of mac) enough below h =
    absurd (ground arith)
serve_request_returns p template fuel st get_profiles enough below h = absurd (ground arith)
serve_request_returns p template fuel st (post_profile body) enough below h = absurd (ground arith)
serve_request_returns p template fuel st (get_profile_named name) enough below h =
    absurd (ground arith)
serve_request_returns p template fuel st (delete_profile_named name) enough below h =
    absurd (ground arith)
serve_request_returns p template fuel st (get_config_of mac) enough below h = absurd (ground arith)

-- Every configured range ends below 255.255.255.255.
abbrev pub AllEndBelowLast : Parsers → List SubnetConfig → Type 0
AllEndBelowLast p [] = Unit {0}
AllEndBelowLast p (sc ∷ scs) = EndsBelowLast p sc.range_end × AllEndBelowLast p scs

load_subnets_returns :
    (p : Parsers) (fuel : ℕ) (scs : List SubnetConfig) (m : Manager)
    → 4294967296 < fuel
    → AllEndBelowLast p scs
    → load_subnets p fuel m scs ≢ none
unfolding load_subnets
load_subnets_returns p fuel [] m enough below h = absurd (ground arith)
load_subnets_returns p fuel (sc ∷ scs) m enough (ends, below) h =
    elim (Result-cases (config_to_subnet p sc)) [
      | inr (e, f) ↦ absurd (ground (arith, f, h))
      | inl (cfg, f) ↦
          let (network, first, last) = config_addresses p sc cfg f in
          let returns = add_returns fuel m cfg enough (ends cfg.range_end last) in
          elim (Option-cases (add fuel m cfg)) [
            | inl g ↦ returns g
            | inr ((grown, out), g) ↦ elim (Result-cases out) [
              | inr (e, k) ↦ absurd (ground (arith, f, g, k, h))
              | inl (u, k) ↦
                  load_subnets_returns p fuel scs grown enough below (ground (arith, f, g, k, h))
            ]
          ]
    ]
