-- ===== src/Tests/Subnets.antt =====
-- The theorems on the manager's subnets at work.
use mydhcp.Common.{
  ℕ, ◌≡◌, refl, [], ◌∷◌, ◌++◌, ite, ◌=?◌, Option, some, none, true, false, arith, Result, ok, err,
  nat_eq, text_eq, Text-discrete,
}
use mydhcp.Net.{Ip, ip_eq, Ip-discrete, IsIp, ip_to_uint32, uint32_to_ip, uint32_to_ip-ip_to_uint32}
use mydhcp.Net.Cidr.{contains}
use mydhcp.Subnet.{Config, Entry, add}
use mydhcp.Common.Maps.{lookup}
use mydhcp.Tests.Data.{start}
use mydhcp.Tests.Nets.{lan, subnets}

-- A third subnet, behind the two.
abbrev third : Config
third = record lan {
  name = 51 ∷ [];
  network = record { ip = record { b0 = 10; b1 = 0; b2 = 2; b3 = 0 }; ones = 24 };
}

abbrev third_entry : Entry
third_entry = record { cfg = third; mem = start }

added : add 9 subnets third ≡ some (subnets ++ (third.name, third_entry) ∷ [], ok tt)
unfolding add mydhcp.Common.Maps.lookup Text-discrete contains mydhcp.Net.Cidr.prefix ip_to_uint32
    mydhcp.Store.Sweep.new_memory_store mydhcp.Common.Maps.insert uint32_to_ip
added = refl
