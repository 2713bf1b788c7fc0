-- ===== src/Api/Agreement.antt =====
-- A subnet is the same whether the configuration file names it or a request to the API does.
use mydhcp.Common.{ℕ, ◌≡◌, ◌≢◌, ◌⊎◌, refl, inl, inr, List, [], ◌∷◌, some, arith, text_eq, nat_eq}
use mydhcp.Config.{SubnetConfig, with_defaults, or_default}
use mydhcp.Api.Parse.{
  Parsers, SubnetRequest, text_24h, text_30s, text_10m, text_60s, parse_duration, parse_dns,
  parse_subnet_config, config_to_subnet,
}

-- What time.ParseDuration makes of the API's default texts.
pub record ReadsDefaults (p : Parsers) : Type 0 where
  pub day : p.duration text_24h ≡ some 86400000000000
  pub half_minute : p.duration text_30s ≡ some 30000000000
  pub ten_minutes : p.duration text_10m ≡ some 600000000000
  pub minute : p.duration text_60s ≡ some 60000000000

-- A request's text and a file's duration: both are left out, or the text reads as the duration,
-- which is not zero.
abbrev pub IsDuration : Parsers → List ℕ → ℕ → Type 0
IsDuration p text n = ((text ≡ []) × (n ≡ 0)) ⊎ ((text ≢ []) × (p.duration text ≡ some n) × (n ≢ 0))

-- The texts have no white space around them.
abbrev pub AreTrim : Parsers → List (List ℕ) → Type 0
AreTrim p [] = Unit {0}
AreTrim p (d ∷ ds) = (p.trim d ≡ d) × AreTrim p ds

-- The request that names the same subnet, with its durations as texts.
abbrev pub request_of : SubnetConfig → List ℕ → List ℕ → List ℕ → List ℕ → SubnetRequest
request_of sc lease offer decline interval = record {
  name = sc.name;
  network = sc.network;
  router = sc.router;
  dns = sc.dns;
  lease_time = lease;
  offer_timeout = offer;
  decline_cooldown = decline;
  lease_reaper_interval = interval;
  range_start = sc.range_start;
  range_end = sc.range_end;
}

duration_agrees :
    (p : Parsers) (text default : List ℕ) (n d : ℕ)
    → p.duration default ≡ some d
    → IsDuration p text n
    → parse_duration p text default ≡ some (or_default d n)
unfolding parse_duration or_default
duration_agrees p text default n d reads (inl (left_out, zero_too)) = ground arith
duration_agrees p text default n d reads (inr (given, reads_too, not_zero)) = ground arith

parse_dns_trim :
    (p : Parsers) (ds : List (List ℕ))
    → AreTrim p ds
    → parse_dns (λ d. p.ip (p.trim d)) ds ≡ parse_dns p.ip ds
unfolding parse_dns
parse_dns_trim p [] h = refl
parse_dns_trim p (d ∷ ds) (same, h) = rw (same, parse_dns_trim p ds h) refl

-- Let the parser of durations read the API's default texts as the durations that the
-- configuration's check fills in. A request that names a subnet with the texts of an entry of the
-- configuration, with a name and no space around its DNS addresses, and whose duration texts are
-- empty where the entry's are 0 and read as the entry's otherwise, comes to the same
-- configuration, or the same error, as the entry after the check.
pub parse_subnet_config-config_to_subnet :
    (p : Parsers) (sc : SubnetConfig) (lease offer decline interval : List ℕ)
    → ReadsDefaults p
    → sc.name ≢ []
    → AreTrim p sc.dns
    → IsDuration p lease sc.lease_time
    → IsDuration p offer sc.offer_timeout
    → IsDuration p decline sc.decline_cooldown
    → IsDuration p interval sc.lease_reaper_interval
    → parse_subnet_config p (request_of sc lease offer decline interval)
      ≡ config_to_subnet p (with_defaults sc)
unfolding parse_subnet_config config_to_subnet with_defaults
parse_subnet_config-config_to_subnet p sc lease offer decline interval reads named trimmed l o c i =
    let l' = duration_agrees p lease text_24h sc.lease_time 86400000000000 reads.day l in
    let o' = duration_agrees p offer text_30s sc.offer_timeout 30000000000 reads.half_minute o in
    let c' =
      duration_agrees p decline text_10m sc.decline_cooldown 600000000000 reads.ten_minutes c in
    let i' =
      duration_agrees p interval text_60s sc.lease_reaper_interval 60000000000 reads.minute i in
    let dns = parse_dns_trim p sc.dns trimmed in ground (arith, l', o', c', i', dns)
