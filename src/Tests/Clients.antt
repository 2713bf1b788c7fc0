-- ===== src/Tests/Clients.antt =====
-- The theorems on the client at work.
use mydhcp.Common.{
  ℕ, ◌+◌, ◌*◌, List, ◌∷◌, ◌≡◌, refl, ◌≢◌, ok, [], some, none, false, arith, nat_eq, text_eq,
  Text-discrete,
}
use mydhcp.Net.{Ip, Ip-discrete, uint32_to_ip}
use mydhcp.Dhcp.Packet.{Packet, parse}
use mydhcp.Dhcp.Handler.{static_ip}
use mydhcp.Client.{build_discover}
use mydhcp.Text.{hex}
use mydhcp.Store.Defs.{Store}
use mydhcp.Subnet.{subnet_for_ip, is_unspecified}
use mydhcp.Client.Release.{served, IsFreed, release_frees}
use mydhcp.Client.Return.{IsReturned, run_release_returns}
use mydhcp.Common.Maps.{lookup}
use mydhcp.Store.Ops.{get_by_client}
use mydhcp.Client.World.{Client}
use mydhcp.Client.Network.{Net, AreStrange}
use mydhcp.Client.Session.{IsLeased, run_dora_leases}
use mydhcp.Dhcp.Server.{lookup_ztp}
use mydhcp.Tests.Data.{host, alice_mac, busy, busy-alice, alice_lease}
use mydhcp.Tests.Nets.{lan, lan_entry, lan-found, subnets, subnets-IsSound}
use mydhcp.Tests.Messages.{relay_inside, busy_first}

-- A third client's address.
abbrev carol_mac : List ℕ
carol_mac = 2 ∷ 0 ∷ 0 ∷ 0 ∷ 0 ∷ 12 ∷ []

no_static_ip : static_ip (lookup_ztp none (build_discover carol_mac 7 none [])).0 ≡ none
unfolding static_ip lookup_ztp
no_static_ip = refl

-- The client on a quiet network but for a datagram that is no packet, before each answer.
abbrev carol : Client
carol = record { server_addr = host 1; mac = carol_mac; xid = 7 }

abbrev quiet : Net
quiet = record { subnets = subnets; inbox = []; count = 0 }

abbrev stray : ℕ → List (List ℕ)
stray n = (n ∷ []) ∷ []

stray_unread : (n : ℕ) (pkt : Packet) → parse (n ∷ []) ≢ ok pkt
unfolding parse
stray_unread n pkt h = absurd (ground arith)

stray-AreStrange : (n : ℕ) → AreStrange 7 (stray n)
stray-AreStrange n = (λ pkt h. absurd (stray_unread n pkt h), tt)

run_dora_leases_example :
    (ip : Ip) × (final : Net) × IsLeased
      (host 1)
      none
      (λ n. 9 + 3 * n)
      stray
      (λ n. n)
      carol
      quiet
      none
      []
      lan_entry
      ip
      final
run_dora_leases_example =
    run_dora_leases (host 1) none (λ n. 9 + 3 * n) stray (λ n. n) carol quiet none [] lan.name
      lan_entry (host 4) refl refl stray-AreStrange subnets-IsSound lan-found relay_inside
      busy_first no_static_ip refl (omega arith) (omega arith) (omega arith)

alice_id : alice_lease.client_id ≡ hex alice_mac
unfolding hex
alice_id = refl

alice_address : is_unspecified (host 2) ≡ false
unfolding is_unspecified Ip-discrete uint32_to_ip
alice_address = refl

release_frees_example :
    ((served (host 1) none subnets alice_mac 7 (host 2) 20).sent ≡ none)
    × ((after : Store) × (subnet_for_ip
            (served (host 1) none subnets alice_mac 7 (host 2) 20).subnets
            (some (host 1))
          ≡ some (record lan_entry { mem = after }))
        × IsFreed busy after (host 2))
release_frees_example =
    release_frees (host 1) none subnets alice_mac 7 (host 2) 20 lan.name lan_entry alice_lease
      subnets-IsSound lan-found relay_inside busy-alice alice_id alice_address refl (omega arith)

carol_new : get_by_client busy (hex carol_mac) ≡ none
unfolding get_by_client lookup hex mydhcp.Store.Calls.run mydhcp.Store.Calls.step
    mydhcp.Store.Ops.allocate mydhcp.Store.Ops.renew mydhcp.Store.Sweep.empty_store
    mydhcp.Common.Maps.insert Ip-discrete Text-discrete
carol_new = refl

carol_address : is_unspecified (host 4) ≡ false
unfolding is_unspecified Ip-discrete uint32_to_ip
carol_address = refl

run_release_returns_example :
    (final : Net) × (after : Store) × IsReturned
      (host 1)
      none
      (λ n. 9 + 3 * n)
      stray
      (λ n. n)
      carol
      quiet
      []
      lan_entry
      (host 4)
      final
      after
run_release_returns_example =
    run_release_returns (host 1) none (λ n. 9 + 3 * n) stray (λ n. n) carol quiet [] lan.name
      lan_entry (host 4) refl refl stray-AreStrange subnets-IsSound lan-found relay_inside
      busy_first carol_address carol_new no_static_ip refl (omega arith) (omega arith) (omega arith)
