-- ===== src/Ztp/Failure.antt =====
-- internal/ztp/manager.go: an operation on a device that fails changes nothing.
use mydhcp.Common.{
  ℕ, ◌≡◌, refl, ap, ◌∙◌, List, [], ◌∷◌, Option, some, none, arith, Bool-cases, Option-cases,
  Result-cases, inl, inr, err, text_eq,
}
use mydhcp.Net.{Ip}
use mydhcp.Net.Cidr.{contains?}
use mydhcp.Store.Ops.{reserve, unreserve}
use mydhcp.Store.Defs.{Store, Error as StoreError}
use mydhcp.Store.Calls.{reserves, unreserves, step, failure, error_of}
use mydhcp.Store.Lifecycle.{failure_keeps}
use mydhcp.Subnet.{Entry, Manager, subnet_for_ip, put_store}
use mydhcp.Ztp.Defs.{Device, Ztp, device_client_id, get_device}
use mydhcp.Ztp.Ops.{Error, check_profile, add_checked, delete_found}
use mydhcp.Ztp.Ops as Ops

-- To write back the store that was found changes nothing.
put_store_same :
    (m : Manager) (a : Option Ip) (e : Entry) → subnet_for_ip m a ≡ some e → put_store m a e.mem ≡ m
unfolding put_store subnet_for_ip
put_store_same [] a e h = refl
put_store_same ((name, w) ∷ m) a e h = elim (Bool-cases (contains? w.cfg.network a)) [
  | inl here ↦ ground (arith, here, h)
  | inr later ↦ rw later (ap (◌∷◌ (name, w)) (put_store_same m a e (ground (arith, later, h))))
]

put_store_kept :
    (m : Manager) (a : Option Ip) (e : Entry) {s : Store}
    → subnet_for_ip m a ≡ some e
    → s ≡ e.mem
    → put_store m a s ≡ m
put_store_kept m a e h same = ap (put_store m a) same ∙ put_store_same m a e h

reserve_keeps :
    (s : Store) (c : List ℕ) (ip : Ip) (x : StoreError)
    → (reserve s c ip).1 ≡ err x
    → (reserve s c ip).0 ≡ s
unfolding step failure error_of
reserve_keeps s c ip x h = failure_keeps s (reserves c ip) x (ap error_of h)

unreserve_keeps :
    (s : Store) (ip : Ip) (x : StoreError) → (unreserve s ip).1 ≡ err x → (unreserve s ip).0 ≡ s
unfolding step failure error_of
unreserve_keeps s ip x h = failure_keeps s (unreserves ip) x (ap error_of h)

add_checked_keeps :
    (o : Option Ip) (z : Ztp) (m : Manager) (d : Device) (x : Error)
    → (add_checked o z m d).1 ≡ err x
    → (add_checked o z m d).0 ≡ (z, m)
unfolding add_checked
add_checked_keeps none z m d x h = absurd (ground arith)
add_checked_keeps (some ip) z m d x h = elim (Option-cases (subnet_for_ip m (some ip))) [
  | inl e ↦ ground (arith, e)
  | inr (w, e) ↦ elim (Result-cases (reserve w.mem (device_client_id d) ip).1) [
    | inl (u, f) ↦ absurd (ground (arith, e, f, h))
    | inr (y, f) ↦
        let kept =
          put_store_kept m (some ip) w e (reserve_keeps w.mem (device_client_id d) ip y f) in
        ground (arith, e, f, kept)
  ]
]

-- An AddDevice that fails leaves the records and the subnets as they were.
pub add_device_keeps :
    (z : Ztp) (m : Manager) (d : Device) (x : Error)
    → (Ops.add_device z m d).1 ≡ err x
    → (Ops.add_device z m d).0 ≡ (z, m)
unfolding Ops.add_device
add_device_keeps z m d x h = elim (Result-cases (check_profile z d)) [
  | inr (y, f) ↦ ground (arith, f)
  | inl (u, f) ↦ ground (arith, f, h, add_checked_keeps d.static_ip z m d x)
]

delete_found_keeps :
    (o : Option Ip) (z : Ztp) (m : Manager) (mac : List ℕ) (x : Error)
    → (delete_found o z m mac).1 ≡ err x
    → (delete_found o z m mac).0 ≡ (z, m)
unfolding delete_found
delete_found_keeps none z m mac x h = absurd (ground arith)
delete_found_keeps (some ip) z m mac x h = elim (Option-cases (subnet_for_ip m (some ip))) [
  | inl e ↦ absurd (ground (arith, e, h))
  | inr (w, e) ↦ elim (Result-cases (unreserve w.mem ip).1) [
    | inl (u, f) ↦ absurd (ground (arith, e, f, h))
    | inr (y, f) ↦
        let kept = put_store_kept m (some ip) w e (unreserve_keeps w.mem ip y f) in
        ground (arith, e, f, kept)
  ]
]

-- A DeleteDevice that fails leaves the records and the subnets as they were.
pub delete_device_keeps :
    (z : Ztp) (m : Manager) (mac : List ℕ) (x : Error)
    → (Ops.delete_device z m mac).1 ≡ err x
    → (Ops.delete_device z m mac).0 ≡ (z, m)
unfolding Ops.delete_device
delete_device_keeps z m mac x h = elim (Option-cases (get_device z mac)) [
  | inl e ↦ ground (arith, e)
  | inr (d, e) ↦ ground (arith, e, h, delete_found_keeps d.static_ip z m mac x)
]
