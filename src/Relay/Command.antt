-- ===== src/Relay/Command.antt =====
-- runRelay of cmd/mydhcp/main.go and Relay.Run: from the configuration file to the interfaces on
-- which the relay listens.
use mydhcp.Common.{
  ℕ, ◌<◌, ◌≡◌, ap, ◌∙◌, List, [], ◌∷◌, Option, some, none, arith, Result, ok, err, ◌>>=◌, length,
  map, Result-cases, Option-cases, inl, inr,
}
use mydhcp.Config.Load.{FileConfig, RelayInterface, Files, LoadError, load}
use mydhcp.Api.Parse.{Parsers}
use mydhcp.Net.{Ip}
use mydhcp.Relay.Loop.{Interface, Read, Relayed, run_interface}

pub data RelayError : Type 0 where
  not_loaded : LoadError → RelayError
  invalid_agent_ip : List ℕ → RelayError
  no_interfaces invalid_upstream : RelayError

-- relay.Config
pub record Config : Type 0 where
  pub listen : List ℕ
  pub upstream : List ℕ
  pub interfaces : List Interface

abbrev pub or_relay_error {ℓ κ} :
    {E : Type ℓ} {A : Type κ} → (E → RelayError) → Result E A → Result RelayError A
or_relay_error f (err e) = err (f e)
or_relay_error f (ok a) = ok a

unfoldable pub to_interface : Parsers → RelayInterface → Result RelayError Interface
to_interface p ri = elim (p.ip ri.agent_ip) [
  | none ↦ err (invalid_agent_ip ri.name)
  | some a ↦ ok (record { name = ri.name; agent_ip = a })
]

-- The loop over the configured interfaces.
unfoldable pub to_interfaces : Parsers → List RelayInterface → Result RelayError (List Interface)
unfolding to_interface
to_interfaces p [] = ok []
to_interfaces p (ri ∷ ris) =
    let rest = to_interfaces p ris in do i ← to_interface p ri; later ← rest; ok (i ∷ later)

-- `len(ifaces) == 0`
unfoldable pub some_interfaces : List Interface → Result RelayError (List Interface)
some_interfaces [] = err no_interfaces
some_interfaces (i ∷ is) = ok (i ∷ is)

-- runRelay up to Run.
unfoldable pub prepare_relay : Parsers → Files → List ℕ → Result RelayError Config
unfolding load to_interfaces some_interfaces
prepare_relay p files path = do
  cfg ← or_relay_error not_loaded (load files path)
  found ← to_interfaces p cfg.relay.interfaces
  interfaces ← some_interfaces found
  ok (record { listen = cfg.relay.listen; upstream = cfg.relay.upstream; interfaces = interfaces })

-- Run: a goroutine for each interface, once the upstream's address is resolved. `reads` is what the
-- socket of an interface gives; a socket that cannot be opened gives nothing.
unfoldable pub run :
    (List ℕ → Option (Ip × ℕ))
    → Config
    → (Interface → List Read)
    → Result RelayError (List (List Relayed))
run resolve cfg reads = elim (resolve cfg.upstream) [
  | none ↦ err invalid_upstream
  | some upstream ↦ ok (map (λ i. run_interface i (reads i)) cfg.interfaces)
]

names-to_interfaces :
    (p : Parsers) (ris : List RelayInterface) (found : List Interface)
    → to_interfaces p ris ≡ ok found
    → map (λ i. i.name) found ≡ map (λ ri. ri.name) ris
unfolding to_interfaces to_interface
names-to_interfaces p [] found h =
    let same : found ≡ [] = ground (arith, h) in ap (map (λ (i : Interface). i.name)) same
names-to_interfaces p (ri ∷ ris) found h = elim (Option-cases (p.ip ri.agent_ip)) [
  | inl e ↦ absurd (ground (arith, e, h))
  | inr (a, e) ↦ elim (Result-cases (to_interfaces p ris)) [
    | inr (x, f) ↦ absurd (ground (arith, e, f, h))
    | inl (later, f) ↦
        let same : found ≡ record { name = ri.name; agent_ip = a } ∷ later =
          ground (arith, e, f, h) in
        ap (map (λ i. i.name)) same ∙ ap (◌∷◌ ri.name) (names-to_interfaces p ris later f)
  ]
]

-- The relay listens on the configured interfaces, of which there is one at least.
prepare_relay_lem :
    (p : Parsers) (files : Files) (path : List ℕ) (cfg : Config)
    → prepare_relay p files path ≡ ok cfg
    → (file : FileConfig) × (load files path ≡ ok file)
      × (map (λ i. i.name) cfg.interfaces ≡ map (λ ri. ri.name) file.relay.interfaces)
      × (0 < length cfg.interfaces)
unfolding prepare_relay some_interfaces
prepare_relay_lem p files path cfg h = elim (Result-cases (load files path)) [
  | inr (x, e) ↦ absurd (ground (arith, e, h))
  | inl (file, e) ↦ elim (Result-cases (to_interfaces p file.relay.interfaces)) [
    | inr (x, f) ↦ absurd (ground (arith, e, f, h))
    | inl ([], f) ↦ absurd (ground (arith, e, f, h))
    | inl (i ∷ found, f) ↦
        let same : cfg.interfaces ≡ i ∷ found = ground (arith, e, f, h) in
        (
          file,
          e,
          ap (map (λ (j : Interface). j.name)) same
              ∙ names-to_interfaces p file.relay.interfaces (i ∷ found) f,
          rw same (omega arith),
        )
  ]
]
