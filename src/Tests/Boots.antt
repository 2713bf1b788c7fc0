-- ===== src/Tests/Boots.antt =====
-- The server command and the relay command at work.
use mydhcp.Common.{
  ℕ, ◌≡◌, refl, List, [], ◌∷◌, Option, some, true, false, ok, text_eq, Text-discrete,
}
use mydhcp.Config.{validate}
use mydhcp.Config.Load.{FileConfig}
use mydhcp.Store.Sweep.{new_memory_store}
use mydhcp.Subnet.Sound.{IsSound}
use mydhcp.Api.Parse.{config_to_subnet}
use mydhcp.System.Boot.{
  Environment, Booted, audit_log, dashboard, text_auditlog, default_audit_path, boot,
}
use mydhcp.System.Serve.{boot-Reach-IsSound}
use mydhcp.Tests.Data.{host}
use mydhcp.Tests.Programs.{parsers, parsers-IsParser, net_text, program, swept, no_template, run}

-- A configuration file with an audit log and no address of a server but the test's.
abbrev written : FileConfig
written = record {
  listen = [];
  server_ip = 1 ∷ [];
  api_listen = [];
  ztp_enabled = false;
  tftp_listen = [];
  subnets = net_text ∷ [];
  log_level = [];
  log_format = [];
  plugins = record { name = text_auditlog; options = [] } ∷ [];
  relay = record { listen = []; upstream = []; interfaces = [] };
}

abbrev machine : Environment
machine = record {
  files = record { open_file = λ path. some path; decode = λ cfg bytes. some written };
  writable = λ path. true;
  embedded = true;
}

abbrev booted : Booted
booted = record {
  config = record written { subnets = (validate (1 ∷ []) (net_text ∷ [])).0 };
  program = program;
  server_ip = some (host 1);
  plugins = audit_log default_audit_path ∷ dashboard (56 ∷ []) ∷ [];
}

boots : boot parsers machine 9 (47 ∷ []) (some (56 ∷ [])) ≡ some (ok booted)
unfolding boot mydhcp.Config.validate Text-discrete mydhcp.Api.Parse.parse_dns config_to_subnet
    mydhcp.Subnet.add mydhcp.Common.Maps.lookup new_memory_store mydhcp.Net.ip_to_uint32
    mydhcp.Common.Maps.insert mydhcp.Net.Cidr.broadcast_addr mydhcp.Net.uint32_to_ip
    mydhcp.Plugin.Registry.register
boots = refl

boot-Reach-IsSound_example : IsSound swept.program.subnets
boot-Reach-IsSound_example =
    boot-Reach-IsSound parsers machine no_template 9 (47 ∷ []) (some (56 ∷ [])) booted swept
      parsers-IsParser boots run
