-- ===== src/System/Sound.antt =====
-- The subnets are well-formed when the server starts and stay so, whatever it is sent and asked.
use mydhcp.Common.{
  ℕ, ◌≡◌, refl, ◌∙◌, List, [], ◌∷◌, Option, some, none, Bool, arith, Option-cases, Result-cases,
  inl, inr, ok, text_eq, ◌=?◌, if_pos, if_neg,
}
use mydhcp.Common.Maps.{lookup}
use mydhcp.Config.{SubnetConfig, validate}
use mydhcp.Net.{Ip}
use mydhcp.Net.Cidr.{IpNet}
use mydhcp.Subnet.{Manager, add, overlaps_any}
use mydhcp.Store.Calls.{step}
use mydhcp.Store.Invariant.Steps.{step-IsValid}
use mydhcp.Subnet.Order.{Separate}
use mydhcp.Subnet.Sound.{IsSound, StoresValid, add-IsSound, put_store-IsSound, found-IsValid}
use mydhcp.Dhcp.Server.Sound.{reap-IsValid, handle_packet-IsSound}
use mydhcp.Ztp.Render.{Template}
use mydhcp.Api.Parse.{Parsers, config_to_subnet}
use mydhcp.Api.Answer.{Program}
use mydhcp.Api.Sound.{IsParser, config_to_subnet-IsParsed, serve_request-IsSound}
use mydhcp.System.{
  load_subnets, start, Running, launch, reap_subnet, Step, receives, sweeps, asks, calls,
  starts_reaper, Reach, here, next, with_address,
}

load_subnets-IsSound :
    (p : Parsers) (fuel : ℕ) (scs : List SubnetConfig) (m : Manager) {m' : Manager}
    → IsParser p
    → IsSound m
    → load_subnets p fuel m scs ≡ some (ok m')
    → IsSound m'
unfolding load_subnets
load_subnets-IsSound p fuel [] m laws sound h = ground (arith, sound)
load_subnets-IsSound p fuel (sc ∷ scs) m laws sound h =
    elim (Result-cases (config_to_subnet p sc)) [
      | inr (e, f) ↦ absurd (ground (arith, f, h))
      | inl (cfg, f) ↦ elim (Option-cases (add fuel m cfg)) [
        | inl g ↦ absurd (ground (arith, f, g, h))
        | inr ((grown, out), g) ↦ elim (Result-cases out) [
          | inr (e, k) ↦ absurd (ground (arith, f, g, k, h))
          | inl (u, k) ↦
              let parsed = config_to_subnet-IsParsed p sc cfg laws f in
              load_subnets-IsSound p fuel scs grown laws
                (add-IsSound fuel m cfg parsed.short parsed.first parsed.last sound g)
                (ground (arith, f, g, k, h))
        ]
      ]
    ]

no_subnets-IsSound : IsSound []
no_subnets-IsSound = record { apart = tt; stores = tt }

-- What start gives.
start-IsSound :
    (p : Parsers) (fuel : ℕ) (server_ip : List ℕ) (scs : List SubnetConfig) (enabled : Bool)
    {st : Program} {address : Option Ip}
    → IsParser p
    → start p fuel server_ip scs enabled ≡ some (ok (st, address))
    → IsSound st.subnets
unfolding start with_address
start-IsSound p fuel server_ip scs enabled laws h =
    elim (Option-cases (load_subnets p fuel [] (validate server_ip scs).0)) [
      | inl e ↦ absurd (ground (arith, e, h))
      | inr (out, e) ↦ elim (Result-cases out) [
        | inr (x, f) ↦ absurd (ground (arith, e, f, h))
        | inl (m, f) ↦
            let sound : IsSound m =
              load_subnets-IsSound p fuel (validate server_ip scs).0 [] laws no_subnets-IsSound
                (ground (arith, e, f)) in
            ground (arith, e, f, h, sound)
      ]
    ]

overlaps_any-reap_subnet :
    (m : Manager) (name : List ℕ) (now : ℕ) (n : IpNet)
    → overlaps_any (reap_subnet m name now) n ≡ overlaps_any m n
unfolding reap_subnet overlaps_any
overlaps_any-reap_subnet [] name now n = refl
overlaps_any-reap_subnet ((j, w) ∷ m) name now n =
    ground (arith, overlaps_any-reap_subnet m name now n)

absent-reap_subnet :
    (m : Manager) (name : List ℕ) (now : ℕ) (k : List ℕ)
    → lookup k m ≡ none
    → lookup k (reap_subnet m name now) ≡ none
unfolding reap_subnet lookup
absent-reap_subnet [] name now k h = refl
absent-reap_subnet ((j, w) ∷ m) name now k h = ground (arith, absent-reap_subnet m name now k)

reap_subnet-Separate :
    (m : Manager) (name : List ℕ) (now : ℕ) → Separate m → Separate (reap_subnet m name now)
unfolding reap_subnet
reap_subnet-Separate [] name now sep = sep
reap_subnet-Separate ((j, w) ∷ m) name now sep = elim (j =? name) [
  | yes same ↦ rw (if_pos _ same) sep
  | no later ↦ rw (if_neg _ later) (
    absent-reap_subnet m name now j sep.0,
    sep.1,
    overlaps_any-reap_subnet m name now w.cfg.network ∙ sep.2,
    reap_subnet-Separate m name now sep.3,
  )
]

reap_subnet-StoresValid :
    (m : Manager) (name : List ℕ) (now : ℕ) → StoresValid m → StoresValid (reap_subnet m name now)
unfolding reap_subnet
reap_subnet-StoresValid [] name now sv = sv
reap_subnet-StoresValid ((j, w) ∷ m) name now sv = elim (j =? name) [
  | yes same ↦ rw (if_pos _ same) (reap-IsValid w.cfg w.mem now sv.0, sv.1)
  | no later ↦ rw (if_neg _ later) (sv.0, reap_subnet-StoresValid m name now sv.1)
]

module _ (p : Parsers) (template : Template) (fuel : ℕ) (server_ip : Option Ip)
    (laws : IsParser p) where
  Step-IsSound :
      {s t : Running}
      → Step p template fuel server_ip s t
      → IsSound s.program.subnets
      → IsSound t.program.subnets
  Step-IsSound (receives s bytes now) sound =
      handle_packet-IsSound server_ip s.program.ztp s.program.subnets bytes now sound
  Step-IsSound (sweeps s name now has) sound = record {
    apart = reap_subnet-Separate s.program.subnets name now sound.apart;
    stores = reap_subnet-StoresValid s.program.subnets name now sound.stores;
  }
  Step-IsSound (calls s a e c found) sound =
      put_store-IsSound s.program.subnets a (step e.mem c)
        (step-IsValid e.mem c (found-IsValid s.program.subnets a e sound.stores found)) sound
  Step-IsSound (starts_reaper s e held) sound = sound
  Step-IsSound (asks s req st r h) sound =
      serve_request-IsSound p template fuel s.program req laws sound h

  Reach-IsSound :
      {s t : Running}
      → IsSound s.program.subnets
      → Reach p template fuel server_ip s t
      → IsSound t.program.subnets
  Reach-IsSound sound here = sound
  Reach-IsSound sound (next r st) = Step-IsSound st (Reach-IsSound sound r)

-- Let the parsers give prefixes of at most 32 bits and addresses of four bytes. If the server
-- starts from a configuration, then after any number of datagrams, starts and sweeps of reapers,
-- requests to the API and single calls of handlers on a store, in any order, the networks of its subnets do
-- not overlap and each subnet's store is well-formed.
pub start-Reach-IsSound :
    (p : Parsers) (template : Template) (fuel : ℕ) (server_ip : List ℕ) (scs : List SubnetConfig)
    (enabled : Bool) {st : Program} {address : Option Ip} {s : Running}
    → IsParser p
    → start p fuel server_ip scs enabled ≡ some (ok (st, address))
    → Reach p template fuel address (launch st) s
    → IsSound s.program.subnets
unfolding launch
start-Reach-IsSound p template fuel server_ip scs enabled {address = address} laws started r =
    Reach-IsSound p template fuel address laws
      (start-IsSound p fuel server_ip scs enabled laws started) r
