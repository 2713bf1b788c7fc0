-- ===== src/Api/Parse.antt =====
-- The texts that the API and the configuration file hand to Go's parsers, parseSubnetConfig of
-- internal/api/handlers.go and configToSubnet of cmd/mydhcp/main.go.
use mydhcp.Common.{ℕ, List, [], ◌∷◌, Option, some, none, ite, ◌=?◌, text_eq, Result, ok, err, ◌>>=◌}
use mydhcp.Config.{SubnetConfig}
use mydhcp.Net.{Ip}
use mydhcp.Net.Cidr.{IpNet, broadcast_addr}
use mydhcp.Subnet.{Config}

-- Go's parsers: net.ParseMAC, net.ParseIP, net.ParseCIDR, time.ParseDuration, strings.TrimSpace and
-- the formatting of a time. `ip` is ParseIP and To4: the outer `none` is a text that is no address,
-- the inner one an IPv6 address. A network is an IPv4 network.
pub record Parsers : Type 0 where
  pub mac : List ℕ → Option (List ℕ)
  pub ip : List ℕ → Option (Option Ip)
  pub cidr : List ℕ → Option IpNet
  pub duration : List ℕ → Option ℕ
  pub trim : List ℕ → List ℕ
  pub format : ℕ → List ℕ

pub record SubnetRequest : Type 0 where
  pub name : List ℕ
  pub network : List ℕ
  pub router : List ℕ
  pub dns : List (List ℕ)
  pub lease_time : List ℕ
  pub offer_timeout : List ℕ
  pub decline_cooldown : List ℕ
  pub lease_reaper_interval : List ℕ
  pub range_start : List ℕ
  pub range_end : List ℕ

-- What a subnet's texts are refused for.
pub data Error : Type 0 where
  name_required invalid_network invalid_router invalid_range invalid_dns : Error
  invalid_lease_time invalid_offer_timeout invalid_decline_cooldown : Error
  invalid_lease_reaper_interval : Error

abbrev pub or_error {ℓ} : {A : Type ℓ} → Error → Option A → Result Error A
or_error e none = err e
or_error e (some a) = ok a

-- The loop over the DNS addresses.
unfoldable pub parse_dns :
    (List ℕ → Option (Option Ip)) → List (List ℕ) → Result Error (List (Option Ip))
parse_dns ip [] = ok []
parse_dns ip (d ∷ ds) =
    let rest = parse_dns ip ds in do a ← or_error invalid_dns (ip d); later ← rest; ok (a ∷ later)

abbrev pub text_24h : List ℕ
text_24h = b'2' ∷ b'4' ∷ b'h' ∷ []

abbrev pub text_30s : List ℕ
text_30s = b'3' ∷ b'0' ∷ b's' ∷ []

abbrev pub text_10m : List ℕ
text_10m = b'1' ∷ b'0' ∷ b'm' ∷ []

abbrev pub text_60s : List ℕ
text_60s = b'6' ∷ b'0' ∷ b's' ∷ []

unfoldable pub parse_duration : Parsers → List ℕ → List ℕ → Option ℕ
parse_duration p s default = p.duration (ite (s =? []) default s)

-- parseSubnetConfig
unfoldable pub parse_subnet_config : Parsers → SubnetRequest → Result Error Config
parse_subnet_config p req = ite (req.name =? []) (err name_required) (do
  network ← or_error invalid_network (p.cidr req.network)
  router ← or_error invalid_router (p.ip req.router)
  range_start ← or_error invalid_range (p.ip req.range_start)
  range_end ← or_error invalid_range (p.ip req.range_end)
  dns ← parse_dns (λ d. p.ip (p.trim d)) req.dns
  lease_time ← or_error invalid_lease_time (parse_duration p req.lease_time text_24h)
  offer_timeout ← or_error invalid_offer_timeout (parse_duration p req.offer_timeout text_30s)
  decline_cooldown ←
      or_error invalid_decline_cooldown (parse_duration p req.decline_cooldown text_10m)
  interval ←
      or_error invalid_lease_reaper_interval (parse_duration p req.lease_reaper_interval text_60s)
  ok (record {
    name = req.name;
    network = network;
    router = router;
    dns = dns;
    broadcast = some (broadcast_addr network);
    lease_time = lease_time;
    offer_timeout = offer_timeout;
    decline_cooldown = decline_cooldown;
    lease_reaper_interval = interval;
    range_start = range_start;
    range_end = range_end;
  }))

-- configToSubnet
unfoldable pub config_to_subnet : Parsers → SubnetConfig → Result Error Config
config_to_subnet p sc = do
  network ← or_error invalid_network (p.cidr sc.network)
  router ← or_error invalid_router (p.ip sc.router)
  range_start ← or_error invalid_range (p.ip sc.range_start)
  range_end ← or_error invalid_range (p.ip sc.range_end)
  dns ← parse_dns p.ip sc.dns
  ok (record {
    name = sc.name;
    network = network;
    router = router;
    dns = dns;
    broadcast = some (broadcast_addr network);
    lease_time = sc.lease_time;
    offer_timeout = sc.offer_timeout;
    decline_cooldown = sc.decline_cooldown;
    lease_reaper_interval = sc.lease_reaper_interval;
    range_start = range_start;
    range_end = range_end;
  })
