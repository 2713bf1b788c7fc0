-- ===== src/Config/Load.antt =====
-- internal/config/config.go: the whole configuration, its defaults, and Load.
use mydhcp.Common.{
  ℕ, ◌≡◌, ◌≢◌, List, [], ◌∷◌, Option, some, none, Bool, true, arith, Result, ok, err, ◌>>=◌,
  Option-cases, Result-cases, inl, inr, text_eq,
}
use mydhcp.Common.Maps.{Map}
use mydhcp.Config.{SubnetConfig, Error, validate}
use mydhcp.Config.Complete.{AreComplete, validate-AreComplete}

pub record PluginConfig : Type 0 where
  pub name : List ℕ
  pub options : Map (List ℕ) (List ℕ)

pub record RelayInterface : Type 0 where
  pub name : List ℕ
  pub agent_ip : List ℕ

pub record RelayConfig : Type 0 where
  pub listen : List ℕ
  pub upstream : List ℕ
  pub interfaces : List RelayInterface

-- Config, with the fields of its nested records.
pub record FileConfig : Type 0 where
  pub listen : List ℕ
  pub server_ip : List ℕ
  pub api_listen : List ℕ
  pub ztp_enabled : Bool
  pub tftp_listen : List ℕ
  pub subnets : List SubnetConfig
  pub log_level : List ℕ
  pub log_format : List ℕ
  pub plugins : List PluginConfig
  pub relay : RelayConfig

unfoldable pub defaults : FileConfig
defaults = record {
  listen = b'0' ∷ b'.' ∷ b'0' ∷ b'.' ∷ b'0' ∷ b'.' ∷ b'0' ∷ b':' ∷ b'6' ∷ b'7' ∷ [];
  server_ip = b'1' ∷ b'2' ∷ b'7' ∷ b'.' ∷ b'0' ∷ b'.' ∷ b'0' ∷ b'.' ∷ b'1' ∷ [];
  api_listen =
      b'1' ∷ b'2' ∷ b'7' ∷ b'.' ∷ b'0' ∷ b'.' ∷ b'0' ∷ b'.' ∷ b'1' ∷ b':' ∷ b'8' ∷ b'0' ∷ b'6'
      ∷ b'7' ∷ [];
  ztp_enabled = true;
  tftp_listen = b'0' ∷ b'.' ∷ b'0' ∷ b'.' ∷ b'0' ∷ b'.' ∷ b'0' ∷ b':' ∷ b'6' ∷ b'9' ∷ [];
  subnets = [];
  log_level = b'i' ∷ b'n' ∷ b'f' ∷ b'o' ∷ [];
  log_format = b't' ∷ b'e' ∷ b'x' ∷ b't' ∷ [];
  plugins = [];
  relay = record { listen = []; upstream = []; interfaces = [] };
}

-- The file system and the decoding of JSON into a configuration, which keeps the fields that the
-- text does not name.
pub record Files : Type 0 where
  pub open_file : List ℕ → Option (List ℕ)
  pub decode : FileConfig → List ℕ → Option FileConfig

pub data LoadError : Type 0 where
  cannot_open cannot_parse : LoadError
  invalid : Error → LoadError

abbrev pub or_load_error {ℓ} : {A : Type ℓ} → LoadError → Option A → Result LoadError A
or_load_error e none = err e
or_load_error e (some a) = ok a

-- The check of Load, which writes the defaults of the subnets.
unfoldable pub checked : FileConfig → Result LoadError FileConfig
checked cfg =
    let (subnets, r) = validate cfg.server_ip cfg.subnets in
    elim r [ err e ↦ err (invalid e) | ok u ↦ ok (record cfg { subnets = subnets }) ]

unfoldable pub load : Files → List ℕ → Result LoadError FileConfig
unfolding defaults checked
load files path = do
  bytes ← or_load_error cannot_open (files.open_file path)
  cfg ← or_load_error cannot_parse (files.decode defaults bytes)
  checked cfg

server_ip_given :
    (server_ip : List ℕ) (scs : List SubnetConfig)
    → (validate server_ip scs).1 ≡ ok tt
    → server_ip ≢ []
unfolding validate
server_ip_given server_ip scs h e = absurd (ground (arith, h, e))

-- What Load has read, and what it leaves.
pub record IsLoaded (files : Files) (path : List ℕ) (cfg : FileConfig) : Type 0 where
  pub bytes : List ℕ
  pub opened : files.open_file path ≡ some bytes
  pub decoded : FileConfig
  pub parsed : files.decode defaults bytes ≡ some decoded
  pub passes : (validate decoded.server_ip decoded.subnets).1 ≡ ok tt
  pub same : cfg ≡ record decoded { subnets = (validate decoded.server_ip decoded.subnets).0 }
  pub complete : AreComplete cfg.subnets
  pub addressed : cfg.server_ip ≢ []

checked_lem :
    (decoded cfg : FileConfig)
    → checked decoded ≡ ok cfg
    → ((validate decoded.server_ip decoded.subnets).1 ≡ ok tt)
      × (cfg ≡ record decoded { subnets = (validate decoded.server_ip decoded.subnets).0 })
unfolding checked
checked_lem decoded cfg h = elim (Result-cases (validate decoded.server_ip decoded.subnets).1) [
  | inr (e, f) ↦ absurd (ground (arith, f, h))
  | inl (u, f) ↦ (f, ground (arith, f, h))
]

-- A configuration that Load returns is complete.
pub load-IsLoaded :
    (files : Files) (path : List ℕ) (cfg : FileConfig)
    → load files path ≡ ok cfg
    → IsLoaded files path cfg
load-IsLoaded files path cfg h = elim (Option-cases (files.open_file path)) [
  | inl e ↦ absurd (unfold load in ground (arith, e, h))
  | inr (bytes, opened) ↦ elim (Option-cases (files.decode defaults bytes)) [
    | inl e ↦ absurd (unfold load in ground (arith, opened, e, h))
    | inr (decoded, parsed) ↦
        let done : checked decoded ≡ ok cfg = unfold load in ground (arith, opened, parsed, h) in
        let (passes, same) = checked_lem decoded cfg done in
        let complete = validate-AreComplete decoded.server_ip decoded.subnets passes in
        record {
          bytes = bytes;
          opened = opened;
          decoded = decoded;
          parsed = parsed;
          passes = passes;
          same = same;
          complete = ground (arith, same, complete.0);
          addressed =
              ground (arith, same, server_ip_given decoded.server_ip decoded.subnets passes);
        }
  ]
]
