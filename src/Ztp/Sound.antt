-- ===== src/Ztp/Sound.antt =====
-- A device's record and its reservation come and go together, and the subnets stay well-formed.
use mydhcp.Common.{
  ℕ, ◌≡◌, refl, sym, subst, List, Option, some, none, arith, Option-cases, Result-cases, inl, inr,
  ◌⊎◌, Result, ok, err, text_eq,
}
use mydhcp.Common.Maps.{lookup, lookup-insert}
use mydhcp.Lease.{Lease, reserved, new_lease}
use mydhcp.Net.{Ip, ip_eq}
use mydhcp.Store.Defs.{Store}
use mydhcp.Store.Ops.{reserve, unreserve, get}
use mydhcp.Store.View.{get-reserve_new}
use mydhcp.Store.Invariant.{IsValid}
use mydhcp.Store.Invariant.Steps.{reserve-IsValid, unreserve-IsValid}
use mydhcp.Subnet.{Manager, Entry, subnet_for_ip}
use mydhcp.Subnet.Order.{subnet_for_ip-put_store}
use mydhcp.Subnet.Sound.{IsSound, put_store-IsSound, found-IsValid}
use mydhcp.Ztp.Defs.{Device, Ztp, mac_key, device_client_id, put_device, get_device}
use mydhcp.Ztp.Ops.{
  Error, no_subnet, reserve_failed, check_profile, add_checked, add_device, delete_found,
  delete_device,
}

add_checked-IsSound :
    (o : Option Ip) (z : Ztp) (m : Manager) (d : Device)
    → IsSound m
    → IsSound (add_checked o z m d).0.1
unfolding add_checked
add_checked-IsSound none z m d sound = sound
add_checked-IsSound (some ip) z m d sound = elim (Option-cases (subnet_for_ip m (some ip))) [
  | inl e ↦ ground (arith, e, sound)
  | inr (w, e) ↦ ground (
    arith,
    e,
    put_store-IsSound m (some ip) (reserve w.mem (device_client_id d) ip).0
        (reserve-IsValid w.mem (device_client_id d) ip (found-IsValid m (some ip) w sound.stores e))
        sound,
  )
]

-- AddDevice leaves the subnets well-formed, whether it succeeds or not.
pub add_device-IsSound :
    (z : Ztp) (m : Manager) (d : Device) → IsSound m → IsSound (add_device z m d).0.1
unfolding add_device
add_device-IsSound z m d sound = ground (arith, sound, add_checked-IsSound d.static_ip z m d sound)

delete_found-IsSound :
    (o : Option Ip) (z : Ztp) (m : Manager) (mac : List ℕ)
    → IsSound m
    → IsSound (delete_found o z m mac).0.1
unfolding delete_found
delete_found-IsSound none z m mac sound = sound
delete_found-IsSound (some ip) z m mac sound = elim (Option-cases (subnet_for_ip m (some ip))) [
  | inl e ↦ ground (arith, e, sound)
  | inr (w, e) ↦ ground (
    arith,
    e,
    put_store-IsSound m (some ip) (unreserve w.mem ip).0
        (unreserve-IsValid w.mem ip (found-IsValid m (some ip) w sound.stores e)) sound,
  )
]

-- Where the subnets are apart and their stores well-formed, DeleteDevice keeps them so, whether it
-- succeeds or not.
pub delete_device-IsSound :
    (z : Ztp) (m : Manager) (mac : List ℕ) → IsSound m → IsSound (delete_device z m mac).0.1
unfolding delete_device
delete_device-IsSound z m mac sound = elim (Option-cases (get_device z mac)) [
  | inl e ↦ ground (arith, e, sound)
  | inr (d, e) ↦ ground (arith, e, delete_found-IsSound d.static_ip z m mac sound)
]

-- The client that the lease of an address belongs to.
reserve-client :
    (s : Store) (c : List ℕ) (ip : Ip)
    → IsValid s
    → (reserve s c ip).1 ≡ ok tt
    → (l : Lease) × (get (reserve s c ip).0 ip ≡ some l) × (l.client_id ≡ c)
unfolding reserve get
reserve-client s c ip v h = elim (Option-cases (lookup ip s.by_ip)) [
  | inl e ↦ (
    new_lease ip c reserved,
    ground (arith, e, get-reserve_new s c ip ip v),
    unfold new_lease in refl,
  )
  | inr (r, e) ↦ (s.heap r, ground (arith, e), ground (arith, e))
]

-- The record is stored, and the static address has a lease of the device's client id.
abbrev pub IsRegistered : Ztp → Manager → Device → Ip → Type 0
IsRegistered z m d ip =
    (get_device z d.mac ≡ some d)
    × ((e : Entry) × (l : Lease) × (subnet_for_ip m (some ip) ≡ some e)
        × (get e.mem ip ≡ some l)
        × (l.client_id ≡ device_client_id d))

get-put : (z : Ztp) (d : Device) → get_device (put_device z d) d.mac ≡ some d
unfolding get_device put_device
get-put z d = ground (arith, lookup-insert (mac_key d.mac) (mac_key d.mac) d z.devices)

-- What AddDevice comes to: the device is registered, or the records are as they were.
abbrev pub Registers : (Ztp × Manager) × Result Error (Unit {0}) → Ztp → Device → Ip → Type 0
Registers out z d ip =
    ((out.1 ≡ ok tt) × IsRegistered out.0.0 out.0.1 d ip)
    ⊎ ((x : Error) × (out.1 ≡ err x) × (out.0.0 ≡ z))

add_checked-Registers :
    (z : Ztp) (m : Manager) (d : Device) (ip : Ip)
    → IsSound m
    → Registers (add_checked (some ip) z m d) z d ip
unfolding add_checked
add_checked-Registers z m d ip sound = elim (Option-cases (subnet_for_ip m (some ip))) [
  | inl e ↦ inr (no_subnet, ground (arith, e), ground (arith, e))
  | inr (w, e) ↦
      let c = device_client_id d in
      let v = found-IsValid m (some ip) w sound.stores e in
      elim (Result-cases (reserve w.mem c ip).1) [
        | inr (x, f) ↦ inr (reserve_failed x, ground (arith, e, f), ground (arith, e, f))
        | inl (u, f) ↦
            let (l, held, mine) = reserve-client w.mem c ip v f in
            inl (
              ground (arith, e, f),
              (
                ground (arith, e, f, get-put z d),
                (
                  record w { mem = (reserve w.mem c ip).0 },
                  l,
                  ground
                      (arith, e, f, subnet_for_ip-put_store m (some ip) (reserve w.mem c ip).0 w e),
                  held,
                  mine,
                ),
              ),
            )
      ]
]

-- Where the subnets are apart and their stores well-formed, AddDevice of a device with a static
-- address either succeeds, stores the record and leaves the address with a lease of the device's
-- client id, or it fails and leaves the records as they were.
pub add_device-Registers :
    (z : Ztp) (m : Manager) (d : Device) (ip : Ip)
    → IsSound m
    → d.static_ip ≡ some ip
    → Registers (add_device z m d) z d ip
unfolding add_device
add_device-Registers z m d ip sound static = elim (Result-cases (check_profile z d)) [
  | inr (x, f) ↦ inr (x, ground (arith, f), ground (arith, f))
  | inl (u, f) ↦
      let same : add_device z m d ≡ add_checked (some ip) z m d = ground (arith, f, static) in
      subst (λ out. Registers out z d ip) (sym same) (add_checked-Registers z m d ip sound)
]
