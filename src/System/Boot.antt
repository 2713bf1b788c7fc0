-- ===== src/System/Boot.antt =====
-- cmd/mydhcp/main.go: the subcommands, and serve from its configuration file to the parts that run,
-- with the plugins. Sockets, signals and what the log writes are left out.
use mydhcp.Common.{
  ℕ, ◌≡◌, ◌∙◌, List, [], ◌∷◌, Option, some, none, Bool, true, false, arith, ite, ◌=?◌, text_eq,
  if◌then◌else◌, Result, ok, err, ◌>>=◌, Result-cases, inl, inr,
}
use mydhcp.Common.Maps.{lookup}
use mydhcp.Config.Load.{FileConfig, PluginConfig, Files, LoadError, load}
use mydhcp.Net.{Ip}
use mydhcp.Plugin.Registry.{register, shutdown}
use mydhcp.Subnet.{Manager}
use mydhcp.Api.Parse.{Parsers}
use mydhcp.Api.Answer.{Program}
use mydhcp.System.{StartError, load_subnets, with_address, new_ztp}

-- What main does with its arguments. A path is that of the configuration file.
pub data Command : Type 0 where
  server relay : List ℕ → Command
  ui : List ℕ → List ℕ → Command
  version bad_flags : Command
  unknown : List ℕ → Command

-- The parsing of the flags behind a subcommand, of the flag package: the path, and for `ui` the
-- address to listen on too; `none` where a flag is refused.
pub record FlagParser : Type 0 where
  pub config_path : List (List ℕ) → Option (List ℕ)
  pub ui_flags : List (List ℕ) → Option (List ℕ × List ℕ)

abbrev pub text_server : List ℕ
text_server = b's' ∷ b'e' ∷ b'r' ∷ b'v' ∷ b'e' ∷ b'r' ∷ []

abbrev pub text_relay : List ℕ
text_relay = b'r' ∷ b'e' ∷ b'l' ∷ b'a' ∷ b'y' ∷ []

abbrev pub text_ui : List ℕ
text_ui = b'u' ∷ b'i' ∷ []

abbrev pub text_version : List ℕ
text_version = b'v' ∷ b'e' ∷ b'r' ∷ b's' ∷ b'i' ∷ b'o' ∷ b'n' ∷ []

unfoldable pub run_server : FlagParser → List (List ℕ) → Command
run_server f args = elim (f.config_path args) [ none ↦ bad_flags | some path ↦ server path ]

unfoldable pub run_relay : FlagParser → List (List ℕ) → Command
run_relay f args = elim (f.config_path args) [ none ↦ bad_flags | some path ↦ relay path ]

unfoldable pub run_ui : FlagParser → List (List ℕ) → Command
run_ui f args = elim (f.ui_flags args) [ none ↦ bad_flags | some (path, listen) ↦ ui path listen ]

-- The arguments behind the program's name.
unfoldable pub command : FlagParser → List (List ℕ) → Command
unfolding run_server run_relay run_ui
command f [] = run_server f []
command f (name ∷ args) = ite (name =? text_server) (run_server f args) (
    ite (name =? text_relay) (run_relay f args)
      (ite (name =? text_ui) (run_ui f args) (ite (name =? text_version) version (unknown name))))

-- setupLogging
pub data LogLevel : Type 0 where
  debug info warn error : LogLevel

unfoldable pub log_level : List ℕ → LogLevel
log_level text = ite (text =? b'd' ∷ b'e' ∷ b'b' ∷ b'u' ∷ b'g' ∷ []) debug (
    ite (text =? b'w' ∷ b'a' ∷ b'r' ∷ b'n' ∷ []) warn
      (ite (text =? b'e' ∷ b'r' ∷ b'r' ∷ b'o' ∷ b'r' ∷ []) error info))

-- Whether the lines of the log are JSON.
unfoldable pub logs_json : List ℕ → Bool
logs_json format = ite (format =? b'j' ∷ b's' ∷ b'o' ∷ b'n' ∷ []) true false

-- A plugin of the server: the audit log with its file, or the dashboard with its address.
pub data Plugin : Type 0 where
  audit_log dashboard : List ℕ → Plugin

pub data BootError : Type 0 where
  not_loaded : LoadError → BootError
  not_started : StartError → BootError
  no_audit_log no_dashboard : BootError

-- The files, whether the audit log's file can be opened for writing, and whether the dashboard's
-- page is there.
pub record Environment : Type 0 where
  pub files : Files
  pub writable : List ℕ → Bool
  pub embedded : Bool

abbrev pub text_auditlog : List ℕ
text_auditlog = b'a' ∷ b'u' ∷ b'd' ∷ b'i' ∷ b't' ∷ b'l' ∷ b'o' ∷ b'g' ∷ []

abbrev pub default_audit_path : List ℕ
default_audit_path =
    b'/' ∷ b'v' ∷ b'a' ∷ b'r' ∷ b'/' ∷ b'l' ∷ b'o' ∷ b'g' ∷ b'/' ∷ b'm' ∷ b'y' ∷ b'd' ∷ b'h' ∷ b'c'
    ∷ b'p' ∷ b'/' ∷ b'a' ∷ b'u' ∷ b'd' ∷ b'i' ∷ b't' ∷ b'.' ∷ b'l' ∷ b'o' ∷ b'g' ∷ []

-- `pc.Options["path"]`, or the default for an empty or missing one.
unfoldable pub audit_path : PluginConfig → List ℕ
audit_path pc = elim (lookup (b'p' ∷ b'a' ∷ b't' ∷ b'h' ∷ []) pc.options) [
  | none ↦ default_audit_path
  | some path ↦ ite (path =? []) default_audit_path path
]

-- The loop over the configured plugins; a plugin of another name is passed over.
unfoldable pub load_plugins :
    Environment → List Plugin → List PluginConfig → Result BootError (List Plugin)
unfolding audit_path
load_plugins env plugins [] = ok plugins
load_plugins env plugins (pc ∷ pcs) =
    let skipped = load_plugins env plugins pcs in
    let path = audit_path pc in
    let opened = load_plugins env (register plugins (audit_log path)) pcs in
    ite (pc.name =? text_auditlog) (if env.writable path then opened else err no_audit_log) skipped

-- The function that runUI hands to serve: Start and Register of the dashboard.
unfoldable pub setup : Environment → Option (List ℕ) → List Plugin → Result BootError (List Plugin)
setup env none plugins = ok plugins
setup env (some listen) plugins =
    if env.embedded then ok (register plugins (dashboard listen)) else err no_dashboard

-- The parts that serve has made.
pub record Booted : Type 0 where
  pub config : FileConfig
  pub program : Program
  pub server_ip : Option Ip
  pub plugins : List Plugin

abbrev pub or_not_started {ℓ} : {A : Type ℓ} → Result StartError A → Result BootError A
or_not_started (err e) = err (not_started e)
or_not_started (ok a) = ok a

-- serve behind the loop over the subnets.
unfoldable pub boot_parts :
    Parsers → Environment → FileConfig → Option (List ℕ) → Manager → Result BootError Booted
unfolding load_plugins setup with_address new_ztp
boot_parts p env cfg listen m = do
  loaded ← load_plugins env [] cfg.plugins
  plugins ← setup env listen loaded
  parts ←
      or_not_started
        (with_address p cfg.server_ip (record { subnets = m; ztp = new_ztp cfg.ztp_enabled }))
  ok (record { config = cfg; program = parts.0; server_ip = parts.1; plugins = plugins })

-- serve, up to the start of its servers; `none` where Add does not return.
unfoldable pub boot :
    Parsers → Environment → ℕ → List ℕ → Option (List ℕ) → Option (Result BootError Booted)
unfolding load load_subnets boot_parts
boot p env fuel path listen = elim (load env.files path) [
  | err e ↦ some (err (not_loaded e))
  | ok cfg ↦ elim (load_subnets p fuel [] cfg.subnets) [
    | none ↦ none
    | some out ↦ elim out [
      | err e ↦ some (err (not_started e))
      | ok m ↦ some (boot_parts p env cfg listen m)
    ]
  ]
]

-- The plugins in the order in which serve shuts them down when the servers end.
unfoldable pub stop : Booted → List Plugin
unfolding shutdown
stop b = shutdown b.plugins

pub boot_parts-with_address :
    (p : Parsers) (env : Environment) (cfg : FileConfig) (listen : Option (List ℕ)) (m : Manager)
    (b : Booted)
    → boot_parts p env cfg listen m ≡ ok b
    → with_address p cfg.server_ip (record { subnets = m; ztp = new_ztp cfg.ztp_enabled })
      ≡ ok (b.program, b.server_ip)
unfolding boot_parts
boot_parts-with_address p env cfg listen m b h =
    elim (Result-cases (load_plugins env [] cfg.plugins)) [
      | inr (e, f) ↦ absurd (ground (arith, f, h))
      | inl (loaded, f) ↦ elim (Result-cases (setup env listen loaded)) [
        | inr (e, g) ↦ absurd (ground (arith, f, g, h))
        | inl (plugins, g) ↦
            elim (Result-cases (
              with_address p cfg.server_ip
                (record { subnets = m; ztp = new_ztp cfg.ztp_enabled }))) [
                  | inr (e, k) ↦ absurd (ground (arith, f, g, k, h))
                  | inl (parts, k) ↦ k ∙ ground (arith, f, g, k, h)
                ]
      ]
    ]
