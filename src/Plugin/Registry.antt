-- ===== src/Plugin/Registry.antt =====
-- internal/plugin/registry.go: the plugins in the order of their registration. A plugin is whatever
-- the program registers.
use mydhcp.Common.{List, [], ◌∷◌, ◌++◌, ◌≡◌, refl, ap, map}
use mydhcp.Plugin.{LeaseEvent}

unfoldable pub register {ℓ} : {P : Type ℓ} → List P → P → List P
register plugins p = plugins ++ p ∷ []

-- EmitLeaseEvent: the goroutines that it starts, which run in any order.
unfoldable pub emit_lease_event {ℓ} : {P : Type ℓ} → List P → LeaseEvent → List (P × LeaseEvent)
emit_lease_event plugins event = map (λ p. (p, event)) plugins

-- Shutdown: the plugins in the order in which they are shut down.
unfoldable pub shutdown {ℓ} : {P : Type ℓ} → List P → List P
shutdown [] = []
shutdown (p ∷ plugins) = shutdown plugins ++ p ∷ []

-- The plugin that was registered last is shut down first.
shutdown-register {ℓ} :
    {P : Type ℓ} (plugins : List P) (p : P) → shutdown (register plugins p) ≡ p ∷ shutdown plugins
unfolding shutdown register
shutdown-register [] p = refl
shutdown-register (q ∷ plugins) p = ap (λ ps. ps ++ q ∷ []) (shutdown-register plugins p)
