-- ===== src/Ztp/Ops.antt =====
-- ztp.Manager of manager.go. The devices' in-memory store accepts every record, so the branch of
-- AddDevice that undoes a reservation is not reached.
use mydhcp.Common.{ℕ, List, [], ◌∷◌, ◌++◌, Option, some, none, text_eq, ite, ◌=?◌, Result, ok, err}
use mydhcp.Net.{Ip}
use mydhcp.Store.Defs.{Error as StoreError}
use mydhcp.Store.Ops.{reserve, unreserve}
use mydhcp.Subnet.{Manager, subnet_for_ip, put_store}
use mydhcp.Text.{colon_hex}
use mydhcp.Ztp.Defs.{
  Device, Profile, Ztp, device_client_id, put_device, get_device, drop_device, get_profile,
  get_by_option60, stored_devices, drop_profile,
}

pub data Error : Type 0 where
  no_such_profile no_subnet device_not_found profile_not_found : Error
  dynamic_device no_profile_assigned assigned_profile_not_found : Error
  reserve_failed unreserve_failed : StoreError → Error

-- LookupForPacket
unfoldable pub lookup_profile : Ztp → Option Device → List ℕ → Option Profile
lookup_profile z none option60 = ite (option60 =? []) none (get_by_option60 z option60)
lookup_profile z (some d) option60 =
    ite (d.vendor_profile =? []) (ite (option60 =? []) none (get_by_option60 z option60))
      (get_profile z d.vendor_profile)

unfoldable pub lookup_for_packet : Ztp → List ℕ → List ℕ → Option Device × Option Profile
unfolding lookup_profile
lookup_for_packet z chaddr option60 =
    let d = get_device z chaddr in (d, lookup_profile z d option60)

-- LookupForTFTP
unfoldable pub lookup_for_tftp : Ztp → List ℕ → Result Error (Device × Profile)
lookup_for_tftp z mac = elim (get_device z mac) [
  | none ↦ err device_not_found
  | some d ↦ elim d.static_ip [
    | none ↦ err dynamic_device
    | some ip ↦
        ite (d.vendor_profile =? []) (err no_profile_assigned)
          (elim (get_profile z d.vendor_profile) [
            | none ↦ err assigned_profile_not_found
            | some p ↦ ok (d, p)
          ])
  ]
]

-- Whether the profile that the record names exists, if it names one.
unfoldable pub check_profile : Ztp → Device → Result Error (Unit {0})
check_profile z d =
    ite (d.vendor_profile =? []) (ok tt)
      (elim (get_profile z d.vendor_profile) [ none ↦ err no_such_profile | some p ↦ ok tt ])

-- The part of AddDevice after the check of the profile, by the record's static address.
unfoldable pub add_checked :
    Option Ip → Ztp → Manager → Device → (Ztp × Manager) × Result Error (Unit {0})
add_checked none z m d = ((put_device z d, m), ok tt)
add_checked (some ip) z m d = elim (subnet_for_ip m (some ip)) [
  | none ↦ ((z, m), err no_subnet)
  | some e ↦
      let (s, r) = reserve e.mem (device_client_id d) ip in
      elim r [
        | ok u ↦ ((put_device z d, put_store m (some ip) s), ok tt)
        | err x ↦ ((z, put_store m (some ip) s), err (reserve_failed x))
      ]
]

unfoldable pub add_device : Ztp → Manager → Device → (Ztp × Manager) × Result Error (Unit {0})
unfolding check_profile add_checked
add_device z m d = elim (check_profile z d) [
  | err x ↦ ((z, m), err x)
  | ok u ↦ add_checked d.static_ip z m d
]

-- The part of DeleteDevice after the lookup, by the record's static address.
unfoldable pub delete_found :
    Option Ip → Ztp → Manager → List ℕ → (Ztp × Manager) × Result Error (Unit {0})
delete_found none z m mac = ((drop_device z mac, m), ok tt)
delete_found (some ip) z m mac = elim (subnet_for_ip m (some ip)) [
  | none ↦ ((drop_device z mac, m), ok tt)
  | some e ↦
      let (s, r) = unreserve e.mem ip in
      elim r [
        | ok u ↦ ((drop_device z mac, put_store m (some ip) s), ok tt)
        | err x ↦ ((z, put_store m (some ip) s), err (unreserve_failed x))
      ]
]

unfoldable pub delete_device : Ztp → Manager → List ℕ → (Ztp × Manager) × Result Error (Unit {0})
unfolding delete_found
delete_device z m mac = elim (get_device z mac) [
  | none ↦ ((z, m), err device_not_found)
  | some d ↦ delete_found d.static_ip z m mac
]

-- The MACs of the devices that name a profile.
unfoldable pub affected_macs : List Device → List ℕ → List (List ℕ)
affected_macs [] name = []
affected_macs (d ∷ ds) name =
    ite (d.vendor_profile =? name) (colon_hex d.mac ∷ []) [] ++ affected_macs ds name

unfoldable pub delete_profile : Ztp → List ℕ → Ztp × Result Error (List (List ℕ))
unfolding affected_macs drop_profile
delete_profile z name = elim (get_profile z name) [
  | none ↦ (z, err profile_not_found)
  | some p ↦ (drop_profile z name, ok (affected_macs (stored_devices z) name))
]
