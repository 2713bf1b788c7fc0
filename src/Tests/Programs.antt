-- ===== src/Tests/Programs.antt =====
-- The theorems on the API and the server command at work.
use mydhcp.Common.{
  ℕ, ◌+◌, ◌%◌, ◌≤◌, ◌<◌, ◌≡◌, ◌≢◌, refl, subst, sym, inl, inr, List, [], ◌∷◌, ◌++◌, Option, some,
  none, Bool, true, false, ◌==◌, ite, ◌=?◌, if◌then◌else◌, arith, length, nat_eq, text_eq, Result,
  ok, Text-discrete, ℕ_discrete,
}
use mathlib.Core.List.{Mem, mem-cons}
use mathlib.Core.Logic.Or
use mydhcp.Net.{Ip, IsIp, ip_to_uint32}
use mydhcp.Net.Cidr.{IpNet}
use mydhcp.Config.{SubnetConfig, with_defaults}
use mydhcp.Store.Ops.{first}
use mydhcp.Store.Sweep.{empty_store, new_memory_store}
use mydhcp.Store.Invariant.Start.{IsIpOrNil}
use mydhcp.Dhcp.Packet.{serialize}
use mydhcp.Dhcp.Server.{handle_packet}
use mydhcp.Ztp.Render.{Template}
use mydhcp.Api.Parse.{Parsers, SubnetRequest, parse_subnet_config, config_to_subnet}
use mydhcp.Api.Answer.{Program, Body, answers}
use mydhcp.Api.Routes.{delete_subnet_named, post_subnet, serve_request}
use mydhcp.Api.Subnets.{delete_subnet}
use mydhcp.Api.Refusal.{serve_request_refused}
use mydhcp.Api.Sound.{IsParser}
use mydhcp.Api.Agreement.{request_of, ReadsDefaults, parse_subnet_config-config_to_subnet}
use mydhcp.System.{start, reap_subnet, Running, launch, Step, receives, sweeps, Reach, here, next}
use mydhcp.System.Start.{IsBelowLast, serve_request_returns}
use mydhcp.Tests.Data.{host, host-IsIp}
use mydhcp.Tests.Nets.{lan, subnets, discover}

-- An address's last byte stands for the address, and each duration's text for a minute.
abbrev pub read_ip : List ℕ → Option (Option Ip)
read_ip [] = none
read_ip (n ∷ rest) = some (some (host (n % 256)))

abbrev pub read_cidr : List ℕ → Option IpNet
read_cidr [] = none
read_cidr (n ∷ rest) = some (record { ip = host 0; ones = 24 })

abbrev pub read_duration : List ℕ → Option ℕ
read_duration [] = none
read_duration (c ∷ rest) =
    if c == b'2'
    then some 86400000000000
    else if c == b'3'
    then some 30000000000
    else if c == b'1'
    then some 600000000000
    else some 60000000000

abbrev pub parsers : Parsers
parsers = record {
  mac = λ text. some text;
  ip = read_ip;
  cidr = read_cidr;
  duration = read_duration;
  trim = λ text. text;
  format = λ t. t ∷ [];
}

read_cidr_short : (text : List ℕ) (n : IpNet) → read_cidr text ≡ some n → n.ones ≤ 32
read_cidr_short [] n h = absurd (ground arith)
read_cidr_short (a ∷ rest) n h =
    let same : record { ip = host 0; ones = 24 } ≡ n = cc (h) in
    subst (λ (x : IpNet). x.ones ≤ 32) same (omega arith)

read_ip_bytes : (text : List ℕ) (a : Option Ip) → read_ip text ≡ some a → IsIpOrNil a
read_ip_bytes [] a h = absurd (ground arith)
read_ip_bytes (n ∷ rest) a h =
    let same : some (host (n % 256)) ≡ a = cc (h) in
    subst IsIpOrNil same (host-IsIp (n % 256) (omega arith))

pub parsers-IsParser : IsParser parsers
parsers-IsParser = record { short = read_cidr_short; bytes = read_ip_bytes }

abbrev pub no_template : Template
no_template source d = none

abbrev two_nets : Program
two_nets = record { subnets = subnets; ztp = none }

-- The subnet has a bound and an offered lease.
conflict :
    serve_request parsers no_template 9 two_nets (delete_subnet_named lan.name)
    ≡ some ((delete_subnet two_nets lan.name).0, answers 409 (Body.occupied 0 1 1))
unfolding serve_request delete_subnet Text-discrete mydhcp.Subnet.remove mydhcp.Common.Maps.lookup
    mydhcp.Store.Sweep.occupied_count mydhcp.Common.Maps.values mydhcp.Store.Calls.run
    mydhcp.Store.Calls.step mydhcp.Store.Ops.allocate mydhcp.Store.Ops.renew empty_store
    mydhcp.Common.Maps.insert mydhcp.Net.Ip-discrete mydhcp.Subnet.get
    mydhcp.Store.Sweep.occupied_by_state mydhcp.Store.Ops.is_reserved mydhcp.Store.Sweep.is_offered
    mydhcp.Store.Sweep.is_bound
conflict = refl

serve_request_refused_example : (delete_subnet two_nets lan.name).0 ≡ two_nets
serve_request_refused_example =
    serve_request_refused parsers no_template 9 two_nets (delete_subnet_named lan.name) conflict
      (omega arith)

abbrev pub net_text : SubnetConfig
net_text = record {
  name = 110 ∷ [];
  network = 0 ∷ [];
  router = 1 ∷ [];
  dns = [];
  lease_time = 0;
  offer_timeout = 5;
  decline_cooldown = 0;
  lease_reaper_interval = 0;
  range_start = 2 ∷ [];
  range_end = 4 ∷ [];
}

abbrev pub program : Program
program = record {
  subnets =
      (
        110 ∷ [],
        record {
          cfg = record {
            name = 110 ∷ [];
            network = record { ip = host 0; ones = 24 };
            router = some (host 1);
            dns = [];
            broadcast = some (host 255);
            lease_time = 86400000000000;
            offer_timeout = 5;
            decline_cooldown = 600000000000;
            lease_reaper_interval = 60000000000;
            range_start = some (host 2);
            range_end = some (host 4);
          };
          mem = record (empty_store 86400000000000 5 600000000000) {
            available = host 2 ∷ host 3 ∷ host 4 ∷ [];
          };
        },
      )
      ∷ [];
  ztp = none;
}

started : start parsers 9 (1 ∷ []) (net_text ∷ []) false ≡ some (ok (program, some (host 1)))
unfolding start mydhcp.Config.validate mydhcp.System.load_subnets mydhcp.System.with_address
    config_to_subnet Text-discrete mydhcp.Api.Parse.parse_dns mydhcp.Subnet.add
    mydhcp.Common.Maps.lookup new_memory_store mydhcp.Net.ip_to_uint32 mydhcp.Common.Maps.insert
    mydhcp.Net.Cidr.broadcast_addr mydhcp.Net.uint32_to_ip
started = refl

-- A client's DISCOVER arrives, and then the reaper's timer ticks.
abbrev pub heard : Running
heard = record (launch program) {
  program = record program {
    subnets = (handle_packet (some (host 1)) none program.subnets (serialize discover) 9).subnets;
  };
}

abbrev pub swept : Running
swept = record heard {
  program = record heard.program { subnets = reap_subnet heard.program.subnets (110 ∷ []) 20 };
}

has_reaper : Mem (110 ∷ []) heard.reaped
unfolding launch mydhcp.Subnet.configs mydhcp.Common.Maps.values
has_reaper = mem-cons.1 (Or.inl refl)

pub run : Reach parsers no_template 9 (some (host 1)) (launch program) swept
unfolding launch
run =
    next (next here (receives (launch program) (serialize discover) 9))
      (sweeps heard (110 ∷ []) 20 has_reaper)

abbrev net_request : SubnetRequest
net_request = request_of net_text [] (53 ∷ []) [] []

ends_below : (a : Option Ip) → read_ip (4 ∷ []) ≡ some a → IsBelowLast a
ends_below a h =
    let same : some (host 4) ≡ a = cc (h) in
    subst IsBelowLast same (unfold ip_to_uint32 in omega arith)

serve_request_returns_example :
    serve_request parsers no_template 4294967297 program (post_subnet (some net_request)) ≢ none
serve_request_returns_example =
    serve_request_returns parsers no_template 4294967297 program (post_subnet (some net_request))
      (omega arith) ends_below

-- The second duration is five units in the file, and a text in the request that reads so.
abbrev quick : Parsers
quick = record parsers { duration = λ text. ite (text =? 53 ∷ []) (some 5) (read_duration text) }

quick-ReadsDefaults : ReadsDefaults quick
unfolding Text-discrete
quick-ReadsDefaults = record { day = refl; half_minute = refl; ten_minutes = refl; minute = refl }

reads_quick : quick.duration (53 ∷ []) ≡ some 5
unfolding Text-discrete
reads_quick = refl

parse_subnet_config-config_to_subnet_example :
    parse_subnet_config quick net_request ≡ config_to_subnet quick (with_defaults net_text)
parse_subnet_config-config_to_subnet_example =
    parse_subnet_config-config_to_subnet quick net_text [] (53 ∷ []) [] [] quick-ReadsDefaults
      (ground arith) tt (inl (refl, refl)) (inr (ground arith, reads_quick, ground arith))
      (inl (refl, refl)) (inl (refl, refl))
