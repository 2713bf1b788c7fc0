-- ===== src/System.antt =====
-- cmd/mydhcp/main.go: the server command, from its configuration to the parts that then run side by
-- side. System/Boot has the subcommands, the plugins and the configuration file. The sockets are left
-- out.
pub mod Sound
pub mod Start
pub mod Boot
pub mod Serve
use mathlib.Core.List.{Mem}
use mydhcp.Common.{
  ℕ, List, [], ◌∷◌, Option, some, none, Bool, if◌then◌else◌, ◌≡◌, ite, ◌=?◌, map, Result, ok, err,
  text_eq,
}
use mydhcp.Common.Maps.{lookup, insert}
use mydhcp.Config.{SubnetConfig, validate}
use mydhcp.Config as Config
use mydhcp.Net.{Ip}
use mydhcp.Store.Calls.{Call, step}
use mydhcp.Subnet.{Entry, Manager, add, configs, subnet_for_ip, put_store}
use mydhcp.Subnet as Subnet
use mydhcp.Dhcp.Server.{handle_packet, reap}
use mydhcp.Ztp.Defs.{Ztp}
use mydhcp.Ztp.Render.{Template}
use mydhcp.Api.Parse.{Parsers, config_to_subnet}
use mydhcp.Api.Parse as Parse
use mydhcp.Api.Answer.{Program, Response}
use mydhcp.Api.Routes.{Request, serve_request}

-- Why the server does not start.
pub data StartError : Type 0 where
  invalid_config : Config.Error → StartError
  invalid_subnet : Parse.Error → StartError
  failed_to_add : Subnet.Error → StartError
  invalid_server_ip : StartError

-- The loop of serve over the configured subnets; `none` where Add does not return.
unfoldable pub load_subnets :
    Parsers → ℕ → Manager → List SubnetConfig → Option (Result StartError Manager)
load_subnets p fuel m [] = some (ok m)
load_subnets p fuel m (sc ∷ scs) = elim (config_to_subnet p sc) [
  | err e ↦ some (err (invalid_subnet e))
  | ok cfg ↦ elim (add fuel m cfg) [
    | none ↦ none
    | some (m', r) ↦ elim r [
      | err e ↦ some (err (failed_to_add e))
      | ok u ↦ load_subnets p fuel m' scs
    ]
  ]
]

-- The server's address: the outer `none` is a text that is no address.
unfoldable pub with_address : Parsers → List ℕ → Program → Result StartError (Program × Option Ip)
with_address p server_ip st = elim (p.ip server_ip) [
  | none ↦ err invalid_server_ip
  | some a ↦ ok (st, a)
]

unfoldable pub new_ztp : Bool → Option Ztp
new_ztp enabled = if enabled then some (record { devices = []; profiles = [] }) else none

-- The check of Load, and serve up to the start of the servers.
unfoldable pub start :
    Parsers
    → ℕ
    → List ℕ
    → List SubnetConfig
    → Bool
    → Option (Result StartError (Program × Option Ip))
unfolding load_subnets with_address new_ztp
start p fuel server_ip scs enabled =
    let (checked, r) = validate server_ip scs in
    elim r [
      | err e ↦ some (err (invalid_config e))
      | ok u ↦ elim (load_subnets p fuel [] checked) [
        | none ↦ none
        | some out ↦ elim out [
          | err e ↦ some (err e)
          | ok m ↦ some (with_address p server_ip (record { subnets = m; ztp = new_ztp enabled }))
        ]
      ]
    ]

-- The running server: what the API sees, and the names of the subnets whose stores are swept.
pub record Running : Type 0 where
  pub program : Program
  pub reaped : List (List ℕ)

-- StartReaper: one reaper more.
unfoldable pub start_reaper : Subnet.Config → List (List ℕ) → List (List ℕ)
start_reaper cfg names = cfg.name ∷ names

-- The loop of Run over the subnets that there are.
unfoldable pub start_reapers : List Subnet.Config → List (List ℕ)
unfolding start_reaper
start_reapers [] = []
start_reapers (cfg ∷ cfgs) = start_reaper cfg (start_reapers cfgs)

unfoldable pub launch : Program → Running
unfolding start_reapers
launch st = record { program = st; reaped = start_reapers (configs st.subnets) }

-- The names that the manager still has. The reaper of a removed subnet keeps the store that it was
-- started with, which nothing else has.
unfoldable pub still_held : Manager → List (List ℕ) → List (List ℕ)
still_held m [] = []
still_held m (name ∷ names) = elim (lookup name m) [
  | none ↦ still_held m names
  | some e ↦ name ∷ still_held m names
]

-- The sweep of the store of the subnet of that name.
unfoldable pub reap_subnet : Manager → List ℕ → ℕ → Manager
reap_subnet [] name now = []
reap_subnet ((key, e) ∷ m) name now =
    ite (key =? name) ((key, record e { mem = (reap e.cfg e.mem now).0 }) ∷ m)
      ((key, e) ∷ reap_subnet m name now)

-- What the server does next: a datagram comes in, a reaper's timer ticks, the API is asked, one call
-- of a handler takes the lock of a store while other handlers are at work, or StartReaper is called
-- for a subnet. StartReaper is exported and the repository has no call of it, so whether and when one
-- comes is left open.
pub data Step (p : Parsers) (template : Template) (fuel : ℕ) (server_ip : Option Ip)
    : Running → Running → Type 0 where
  receives :
      (s : Running) (bytes : List ℕ) (now : ℕ)
      → Step p template fuel server_ip s (record s {
        program = record s.program {
          subnets = (handle_packet server_ip s.program.ztp s.program.subnets bytes now).subnets;
        };
      })
  sweeps :
      (s : Running) (name : List ℕ) (now : ℕ)
      → Mem name s.reaped
      → Step p template fuel server_ip s (record s {
        program = record s.program { subnets = reap_subnet s.program.subnets name now };
      })
  asks :
      (s : Running) (req : Request) (st : Program) (r : Response)
      → serve_request p template fuel s.program req ≡ some (st, r)
      → Step p template fuel server_ip s
          (record { program = st; reaped = still_held st.subnets s.reaped })
  starts_reaper :
      (s : Running) (e : Entry)
      → lookup e.cfg.name s.program.subnets ≡ some e
      → Step p template fuel server_ip s (record s { reaped = start_reaper e.cfg s.reaped })
  -- A call that some handler makes on a store, between the calls of another one.
  calls :
      (s : Running) (a : Option Ip) (e : Entry) (c : Call)
      → subnet_for_ip s.program.subnets a ≡ some e
      → Step p template fuel server_ip s (record s {
        program = record s.program { subnets = put_store s.program.subnets a (step e.mem c) };
      })

-- What comes of any number of steps, in any order.
pub data Reach (p : Parsers) (template : Template) (fuel : ℕ) (server_ip : Option Ip) (s : Running)
    : Running → Type 0 where
  here : Reach p template fuel server_ip s s
  next :
      {t u : Running}
      → Reach p template fuel server_ip s t
      → Step p template fuel server_ip t u
      → Reach p template fuel server_ip s u
