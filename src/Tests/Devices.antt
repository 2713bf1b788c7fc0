-- ===== src/Tests/Devices.antt =====
-- The theorems on devices and their reservations at work.
use mydhcp.Common.{
  ℕ, ◌≡◌, ◌≢◌, refl, ok, inl, inr, arith, Text-discrete, List, [], ◌∷◌, some, nat_eq, text_eq,
  ℕ_discrete,
}
use mydhcp.Common.Maps.{lookup}
use mydhcp.Ztp.Defs.{Device, Ztp, device_client_id}
use mydhcp.Ztp.Ops.{add_device}
use mydhcp.Net.{Ip, ip_eq, Ip-discrete, ip_to_uint32}
use mydhcp.Store.Ops.{reserve}
use mydhcp.Subnet.{Manager, subnet_for_ip}
use mydhcp.Ztp.Sound.{Registers, IsRegistered, add_device-Registers, add_device-IsSound}
use mydhcp.Ztp.Readd.{IsLeftOver, add_device-IsLeftOver}
use mydhcp.Ztp.Identity.{client_id-ne-device_client_id}
use mydhcp.Dhcp.Options.{opt_client_id}
use mydhcp.Dhcp.Packet.{Packet, client_id}
use mydhcp.Tests.Data.{host, alice_mac}
use mydhcp.Tests.Nets.{subnets, subnets-IsSound, discover}

abbrev router : Device
router = record {
  mac = alice_mac;
  vendor_profile = [];
  static_ip = some (host 7);
  hostname = [];
  vars = [];
}

abbrev no_devices : Ztp
no_devices = record { devices = []; profiles = [] }

abbrev other_mac : List ℕ
other_mac = 2 ∷ 0 ∷ 0 ∷ 0 ∷ 0 ∷ 11 ∷ []

add_device-Registers_example :
    Registers (add_device no_devices subnets router) no_devices router (host 7)
add_device-Registers_example =
    add_device-Registers no_devices subnets router (host 7) subnets-IsSound refl

router_added : (add_device no_devices subnets router).1 ≡ ok tt
unfolding add_device mydhcp.Ztp.Ops.check_profile mydhcp.Ztp.Ops.add_checked subnet_for_ip
    mydhcp.Net.Cidr.contains mydhcp.Net.Cidr.prefix ip_to_uint32 reserve lookup Ip-discrete
    Text-discrete mydhcp.Net.Cidr.contains? mydhcp.Store.Calls.run mydhcp.Store.Calls.step
    mydhcp.Store.Ops.allocate mydhcp.Store.Ops.renew mydhcp.Store.Sweep.empty_store
    mydhcp.Common.Maps.insert
router_added = refl

abbrev with_router : Ztp × Manager
with_router = (add_device no_devices subnets router).0

router-IsRegistered : IsRegistered with_router.0 with_router.1 router (host 7)
router-IsRegistered = elim add_device-Registers_example [
  | inl (accepts, registered) ↦ registered
  | inr (x, refuses, unchanged) ↦ absurd (ground (arith, refuses, router_added))
]

-- The router with another address.
abbrev moved : Device
moved = record router { static_ip = some (host 8) }

moved_added : (add_device with_router.0 with_router.1 moved).1 ≡ ok tt
unfolding add_device mydhcp.Ztp.Ops.check_profile mydhcp.Ztp.Ops.add_checked subnet_for_ip
    mydhcp.Net.Cidr.contains mydhcp.Net.Cidr.prefix ip_to_uint32 reserve lookup Ip-discrete
    Text-discrete mydhcp.Subnet.put_store mydhcp.Store.Ops.reserve_new mydhcp.Net.Cidr.contains?
    mydhcp.Store.Calls.run mydhcp.Store.Calls.step mydhcp.Store.Ops.allocate mydhcp.Store.Ops.renew
    mydhcp.Store.Sweep.empty_store mydhcp.Common.Maps.insert
moved_added = refl

add_device-IsLeftOver_example :
    IsLeftOver
      (add_device with_router.0 with_router.1 moved).0.0
      (add_device with_router.0 with_router.1 moved).0.1
      moved
      (host 7)
add_device-IsLeftOver_example =
    add_device-IsLeftOver with_router.0 with_router.1 router moved (host 7) (host 8)
      (add_device-IsSound no_devices subnets router subnets-IsSound) router-IsRegistered refl refl
      (λ e. absurd (ground (arith, e))) moved_added

-- Alice's packet when she sends her address as option 61 too.
abbrev named : Packet
named = record discover { options = (53, 1 ∷ []) ∷ (61, 1 ∷ alice_mac) ∷ [] }

named_option : lookup opt_client_id named.options ≡ some (1 ∷ alice_mac)
unfolding lookup ℕ_discrete
named_option = refl

client_id-ne-device_client_id_example : client_id named ≢ device_client_id router
client_id-ne-device_client_id_example =
    client_id-ne-device_client_id named router 2 (0 ∷ 0 ∷ 0 ∷ 0 ∷ 10 ∷ []) refl named_option
