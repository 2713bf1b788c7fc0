-- ===== src/Subnet/Removal.antt =====
-- What Remove takes away.
use mydhcp.Common.{
  ℕ, ◌≡◌, sym, ap, ◌∙◌, List, some, none, false, arith, Option-cases, inl, inr, text_eq, ok, ◌=?◌,
  ite,
}
use mydhcp.Common.Maps.{lookup, delete, lookup-delete}
use mydhcp.Lease.{Lease, occupies}
use mydhcp.Net.{Ip}
use mydhcp.Store.Ops.{get}
use mydhcp.Store.Sweep.{occupied_count}
use mydhcp.Store.Counting.{unoccupied}
use mydhcp.Subnet.{Manager, Entry, remove}

removed :
    (m : Manager) (name : List ℕ)
    → (remove m name).1 ≡ ok tt
    → (e : Entry) × (lookup name m ≡ some e)
      × (occupied_count e.mem ≡ 0)
      × ((remove m name).0 ≡ delete name m)
unfolding remove
removed m name h = elim (Option-cases (lookup name m)) [
  | inl e ↦ absurd (ground (arith, e))
  | inr (w, e) ↦ (w, ground arith, ground (arith, e), ground (arith, e))
]

-- A Remove that succeeds takes away the subnet of that name and no other, and no lease of the
-- removed subnet is reserved, offered or bound.
pub remove_lem :
    (m : Manager) (name other : List ℕ) (k : Ip) (l : Lease) (e : Entry)
    → (remove m name).1 ≡ ok tt
    → lookup name m ≡ some e
    → get e.mem k ≡ some l
    → (occupies l.state ≡ false)
      × (lookup other (remove m name).0 ≡ ite (name =? other) none (lookup other m))
remove_lem m name other k l e h found held =
    let (w, same, empty, left) = removed m name h in
    let here : w ≡ e = ground arith in
    (
      unoccupied e.mem k l (ap (λ (x : Entry). occupied_count x.mem) (sym here) ∙ empty) held,
      ap (lookup other) left ∙ lookup-delete name other m,
    )
