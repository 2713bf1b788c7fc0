-- ===== src/Ztp/Readd.antt =====
-- A device that is added again with another static address.
use mydhcp.Common.{
  ℕ, ◌≡◌, ◌≢◌, sym, ap, ◌∙◌, subst, List, [], ◌∷◌, some, arith, Option-cases, Result-cases,
  Bool-cases, inl, inr, ok, text_eq, nat_eq,
}
use mydhcp.Common.Maps.{lookup}
use mydhcp.Lease.{Lease}
use mydhcp.Net.{Ip, ip_eq}
use mydhcp.Net.Cidr.{contains?}
use mydhcp.Store.Defs.{Store}
use mydhcp.Store.Ops.{reserve, unreserve, get}
use mydhcp.Store.View.{get-reserve_new, get-give_back}
use mydhcp.Store.Invariant.{IsValid}
use mydhcp.Subnet.{Manager, Entry, subnet_for_ip, put_store}
use mydhcp.Subnet.Sound.{IsSound, found-IsValid}
use mydhcp.Text.{hex}
use mydhcp.Ztp.Defs.{Device, Ztp, device_client_id, get_device}
use mydhcp.Ztp.Ops.{check_profile, add_checked, add_device, delete_found, delete_device}
use mydhcp.Ztp.Sound.{IsRegistered, add_device-Registers}

-- The subnet of an address holds this lease for it.
abbrev pub IsHeld : Manager → Ip → Lease → Type 0
IsHeld m a l = (e : Entry) × (subnet_for_ip m (some a) ≡ some e) × (get e.mem a ≡ some l)

-- A call on the store of an address keeps what it keeps in that store.
put_store-keeps :
    (m : Manager) (a b : Ip) (w : Entry) (s : Store) (l : Lease)
    → subnet_for_ip m (some b) ≡ some w
    → (get w.mem a ≡ some l → get s a ≡ some l)
    → IsHeld m a l
    → IsHeld (put_store m (some b) s) a l
unfolding put_store subnet_for_ip
put_store-keeps [] a b w s l found keeps (e, there, held) = absurd (ground arith)
put_store-keeps ((name, x) ∷ m) a b w s l found keeps (e, there, held) =
    elim (Bool-cases (contains? x.cfg.network (some b))) [
      | inl f ↦ elim (Bool-cases (contains? x.cfg.network (some a))) [
        | inl g ↦
            let same : w ≡ e = ground (arith, f, g, found, there) in
            (
              record x { mem = s },
              ground (arith, f, g),
              keeps (ap (λ (y : Entry). get y.mem a) same ∙ held),
            )
        | inr g ↦ (e, ground (arith, f, g, there), held)
      ]
      | inr f ↦ elim (Bool-cases (contains? x.cfg.network (some a))) [
        | inl g ↦ (e, ground (arith, f, g, there), held)
        | inr g ↦
            let (e', there', held') =
              put_store-keeps m a b w s l (ground (arith, f, found)) keeps
                (e, ground (arith, g, there), held) in
            (e', ground (arith, f, g, there'), held')
      ]
    ]

reserve-keeps :
    (s : Store) (c : List ℕ) (b a : Ip) (l : Lease)
    → IsValid s
    → b ≢ a
    → get s a ≡ some l
    → get (reserve s c b).0 a ≡ some l
unfolding reserve
reserve-keeps s c b a l v apart held = elim (Option-cases (lookup b s.by_ip)) [
  | inl e ↦ ground (arith, e, get-reserve_new s c b a v, apart, held)
  | inr (r, e) ↦ ground (arith, e, held)
]

unreserve-keeps :
    (s : Store) (b a : Ip) (l : Lease) → b ≢ a → get s a ≡ some l → get (unreserve s b).0 a ≡ some l
unfolding unreserve
unreserve-keeps s b a l apart held = elim (Option-cases (lookup b s.by_ip)) [
  | inl e ↦ ground (arith, e, held)
  | inr (r, e) ↦ ground (arith, e, get-give_back s b a r, apart, held)
]

add_device-keeps :
    (z : Ztp) (m : Manager) (d : Device) (b a : Ip) (l : Lease)
    → IsSound m
    → d.static_ip ≡ some b
    → b ≢ a
    → IsHeld m a l
    → IsHeld (add_device z m d).0.1 a l
unfolding add_device add_checked
add_device-keeps z m d b a l sound static apart held = elim (Result-cases (check_profile z d)) [
  | inr (x, f) ↦ subst (λ n. IsHeld n a l) (ground (arith, f)) held
  | inl (u, f) ↦ elim (Option-cases (subnet_for_ip m (some b))) [
    | inl g ↦ subst (λ n. IsHeld n a l) (ground (arith, f, static, g)) held
    | inr (w, g) ↦
        let c = device_client_id d in
        let v = found-IsValid m (some b) w sound.stores g in
        subst (λ n. IsHeld n a l) (ground (arith, f, static, g))
          (put_store-keeps m a b w (reserve w.mem c b).0 l g (reserve-keeps w.mem c b a l v apart)
            held)
  ]
]

delete_device-keeps :
    (z : Ztp) (m : Manager) (d : Device) (b a : Ip) (l : Lease)
    → get_device z d.mac ≡ some d
    → d.static_ip ≡ some b
    → b ≢ a
    → IsHeld m a l
    → IsHeld (delete_device z m d.mac).0.1 a l
unfolding delete_device delete_found
delete_device-keeps z m d b a l known static apart held =
    elim (Option-cases (subnet_for_ip m (some b))) [
      | inl g ↦ subst (λ n. IsHeld n a l) (ground (arith, known, static, g)) held
      | inr (w, g) ↦
          subst (λ n. IsHeld n a l) (ground (arith, known, static, g))
            (put_store-keeps m a b w (unreserve w.mem b).0 l g (unreserve-keeps w.mem b a l apart)
              held)
    ]

-- The device is known with its new record, and the lease of the old address stays, also when the
-- device is deleted.
pub record IsLeftOver (z : Ztp) (m : Manager) (d : Device) (a : Ip) : Type 0 where
  pub known : get_device z d.mac ≡ some d
  pub lease : Lease
  pub own : lease.client_id ≡ device_client_id d
  pub added : IsHeld m a lease
  pub deleted : IsHeld (delete_device z m d.mac).0.1 a lease

-- Let a device be registered with a static address, the subnets be apart with well-formed stores,
-- and AddDevice of a record with the same hardware address and another static address succeed.
-- Then the new record replaces the old one, but the lease of the device's client id on the old
-- address stays, and it stays also when DeleteDevice then deletes the device.
pub add_device-IsLeftOver :
    (z : Ztp) (m : Manager) (old d : Device) (a b : Ip)
    → IsSound m
    → IsRegistered z m old a
    → d.mac ≡ old.mac
    → d.static_ip ≡ some b
    → b ≢ a
    → (add_device z m d).1 ≡ ok tt
    → IsLeftOver (add_device z m d).0.0 (add_device z m d).0.1 d a
unfolding device_client_id
add_device-IsLeftOver z m old d a b sound (recorded, (e, l, there, held, own)) same static apart h =
    let kept = add_device-keeps z m d b a l sound static apart (e, there, held) in
    elim (add_device-Registers z m d b sound static) [
      | inr (x, refuses, unchanged) ↦ absurd (ground (arith, refuses, h))
      | inl (accepts, (known, rest)) ↦ record {
        known = known;
        lease = l;
        own = own ∙ ap hex (sym same);
        added = kept;
        deleted =
            delete_device-keeps (add_device z m d).0.0 (add_device z m d).0.1 d b a l known static
              apart kept;
      }
    ]
