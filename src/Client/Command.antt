-- ===== src/Client/Command.antt =====
-- cmd/dhcpclient/main.go, main: from the flags to the scenario that runs. Opening the socket is
-- left out.
use mydhcp.Common.{
  ℕ, ◌+◌, ◌*◌, ◌/◌, ◌%◌, ◌<◌, ◌≡◌, refl, List, [], ◌∷◌, Option, some, none, arith, ite, ◌=?◌,
  text_eq, ◌==◌, if◌then◌else◌, Result, ok, err, ◌>>=◌, length, Option-cases, inl, inr,
  Result-cases,
}
use mydhcp.Net.{Ip}
use mydhcp.Api.Parse.{Parsers}
use mydhcp.Client.World.{World, Run, Client}
use mydhcp.Client.Scenarios.{
  Report, run_dora, run_discover_only, run_bad_server_id, run_bad_ip, run_decline, run_release,
  run_renew,
}

-- The flags that the scenarios but the flood use.
pub record Flags : Type 0 where
  pub server : List ℕ
  pub mac : List ℕ
  pub vendor : List ℕ
  pub req_ip : List ℕ
  pub xid : ℕ
  pub scenario : List ℕ

pub data Scenario : Type 0 where
  dora discover_only bad_server_id bad_ip decline release renew flood : Scenario

pub data FlagError : Type 0 where
  invalid_mac invalid_server invalid_req_ip unknown_scenario : FlagError

abbrev pub scenario_names : List (List ℕ × Scenario)
scenario_names =
    (b'd' ∷ b'o' ∷ b'r' ∷ b'a' ∷ [], dora)
    ∷ (
      b'd' ∷ b'i' ∷ b's' ∷ b'c' ∷ b'o' ∷ b'v' ∷ b'e' ∷ b'r' ∷ b'-' ∷ b'o' ∷ b'n' ∷ b'l' ∷ b'y' ∷ [],
      discover_only,
    )
    ∷ (
      b'b' ∷ b'a' ∷ b'd' ∷ b'-' ∷ b's' ∷ b'e' ∷ b'r' ∷ b'v' ∷ b'e' ∷ b'r' ∷ b'-' ∷ b'i' ∷ b'd' ∷ [],
      bad_server_id,
    )
    ∷ (b'b' ∷ b'a' ∷ b'd' ∷ b'-' ∷ b'i' ∷ b'p' ∷ [], bad_ip)
    ∷ (b'd' ∷ b'e' ∷ b'c' ∷ b'l' ∷ b'i' ∷ b'n' ∷ b'e' ∷ [], decline)
    ∷ (b'r' ∷ b'e' ∷ b'l' ∷ b'e' ∷ b'a' ∷ b's' ∷ b'e' ∷ [], release)
    ∷ (b'r' ∷ b'e' ∷ b'n' ∷ b'e' ∷ b'w' ∷ [], renew)
    ∷ (b'f' ∷ b'l' ∷ b'o' ∷ b'o' ∷ b'd' ∷ [], flood)
    ∷ []

unfoldable pub find_scenario : List (List ℕ × Scenario) → List ℕ → Result FlagError Scenario
find_scenario [] text = err unknown_scenario
find_scenario ((name, s) ∷ names) text = ite (name =? text) (ok s) (find_scenario names text)

-- randomMAC, of the 32-bit numbers in the order in which they are drawn: the group bit of the first
-- byte is cleared and the local bit set.
unfoldable pub random_mac : ℕ → ℕ → List ℕ
random_mac low high =
    (high / 256 % 256 / 4 * 4 + 2)
    ∷ high % 256
    ∷ low / 16777216 % 256
    ∷ low / 65536 % 256
    ∷ low / 256 % 256
    ∷ low % 256
    ∷ []

unfoldable pub parse_mac_or_random : Parsers → List ℕ → ℕ → ℕ → Result FlagError (List ℕ)
unfolding random_mac
parse_mac_or_random p text low high =
    ite (text =? []) (ok (random_mac low high))
      (elim (p.mac text) [ none ↦ err invalid_mac | some mac ↦ ok mac ])

-- `uint32(*xidVal)`, or a random number for 0.
unfoldable pub choose_xid : ℕ → ℕ → ℕ
choose_xid flag random = if flag % 4294967296 == 0 then random else flag % 4294967296

-- `net.ParseIP(text).To4()` that must not be nil.
unfoldable pub parse_ip4 : Parsers → FlagError → List ℕ → Result FlagError Ip
parse_ip4 p e text = elim (p.ip text) [
  | none ↦ err e
  | some a ↦ elim a [ none ↦ err e | some ip ↦ ok ip ]
]

unfoldable pub parse_req_ip : Parsers → List ℕ → Result FlagError (Option Ip)
unfolding parse_ip4
parse_req_ip p text =
    ite (text =? []) (ok none)
      (elim (parse_ip4 p invalid_req_ip text) [ err e ↦ err e | ok ip ↦ ok (some ip) ])

-- What main has made of the flags when it comes to the scenario.
pub record Prepared : Type 0 where
  pub client : Client
  pub server_ip : Ip
  pub req_ip : Option Ip
  pub vendor : List ℕ
  pub scenario : Scenario

-- The flags in the order in which main reads them, with the random numbers that it may draw.
unfoldable pub prepare : Parsers → Flags → ℕ → ℕ → ℕ → Result FlagError Prepared
unfolding parse_mac_or_random choose_xid parse_ip4 parse_req_ip find_scenario
prepare p f low high random = do
  mac ← parse_mac_or_random p f.mac low high
  server_ip ← parse_ip4 p invalid_server f.server
  req_ip ← parse_req_ip p f.req_ip
  scenario ← find_scenario scenario_names f.scenario
  ok (record {
    client = record { server_addr = server_ip; mac = mac; xid = choose_xid f.xid random };
    server_ip = server_ip;
    req_ip = req_ip;
    vendor = f.vendor;
    scenario = scenario;
  })

-- The switch of main; `none` is the flood, which has a world of its own.
unfoldable pub run_scenario : (w : World) → Prepared → Option (Run w.State Report)
run_scenario w r = elim r.scenario [
  | dora ↦ some (run_dora w r.client (some r.server_ip) r.req_ip r.vendor)
  | discover_only ↦ some (run_discover_only w r.client r.req_ip r.vendor)
  | bad_server_id ↦ some (run_bad_server_id w r.client r.vendor)
  | bad_ip ↦ some (run_bad_ip w r.client (some r.server_ip) r.vendor)
  | decline ↦ some (run_decline w r.client (some r.server_ip) r.vendor)
  | release ↦ some (run_release w r.client (some r.server_ip) r.vendor)
  | renew ↦ some (run_renew w r.client (some r.server_ip) r.vendor)
  | flood ↦ none
]

-- A random address is one of a single device that no manufacturer assigned.
random_mac_lem :
    (low high : ℕ) → (length (random_mac low high) ≡ 6) × (high / 256 % 256 / 4 * 4 + 2 < 256)
random_mac_lem low high = (unfold random_mac in refl, omega arith)

-- What the scenarios rely on.
pub record IsReady (r : Prepared) : Type 0 where
  pub here : r.client.server_addr ≡ r.server_ip
  pub six : length r.client.mac ≡ 6
  pub small : r.client.xid < 4294967296

mac_length :
    (p : Parsers) (text mac : List ℕ) (low high : ℕ)
    → ((m : List ℕ) → p.mac text ≡ some m → length m ≡ 6)
    → parse_mac_or_random p text low high ≡ ok mac
    → length mac ≡ 6
unfolding parse_mac_or_random random_mac
mac_length p text mac low high six h = elim (text =? []) [
  | yes e ↦ ground (arith, e, h)
  | no e ↦ elim (Option-cases (p.mac text)) [
    | inl f ↦ absurd (ground (arith, e, f, h))
    | inr (m, f) ↦ ground (arith, e, f, h, six m f)
  ]
]

choose_xid_bounds : (flag random : ℕ) → random < 4294967296 → choose_xid flag random < 4294967296
unfolding choose_xid
choose_xid_bounds flag random h = ground arith

-- Prepared flags are ready.
pub prepare-IsReady :
    (p : Parsers) (f : Flags) (low high random : ℕ) (r : Prepared)
    → ((m : List ℕ) → p.mac f.mac ≡ some m → length m ≡ 6)
    → random < 4294967296
    → prepare p f low high random ≡ ok r
    → IsReady r
unfolding prepare
prepare-IsReady p f low high random r six small h =
    elim (Result-cases (parse_mac_or_random p f.mac low high)) [
      | inr (x, e) ↦ absurd (ground (arith, e, h))
      | inl (mac, e) ↦ elim (Result-cases (parse_ip4 p invalid_server f.server)) [
        | inr (x, e') ↦ absurd (ground (arith, e, e', h))
        | inl (server_ip, e') ↦ elim (Result-cases (parse_req_ip p f.req_ip)) [
          | inr (x, e'') ↦ absurd (ground (arith, e, e', e'', h))
          | inl (req_ip, e'') ↦ elim (Result-cases (find_scenario scenario_names f.scenario)) [
            | inr (x, k) ↦ absurd (ground (arith, e, e', e'', k, h))
            | inl (scenario, k) ↦ record {
              here = ground (arith, e, e', e'', k, h);
              six = ground (arith, e, e', e'', k, h, mac_length p f.mac mac low high six e);
              small = ground (arith, e, e', e'', k, h, choose_xid_bounds f.xid random small);
            }
          ]
        ]
      ]
    ]
